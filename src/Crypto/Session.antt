-- ===== src/Crypto/Session.antt =====
-- src/crypto_session.cpp and include/airplay2/crypto_session.h.
use gwl_airplay.Base.{Bool, true, false, ◌≡◌, arith, not, if◌then◌else◌}
use gwl_airplay.Crypto.{CryptoParameters, no_parameters, valid}

-- `enum class CryptoMode`
pub data CryptoMode : Type 0 where
  none legacy_sdp paired_session : CryptoMode

pub record CryptoSession : Type 0 where
  pub mode : CryptoMode
  pub configured : Bool
  pub parameters : CryptoParameters

-- `CryptoSession::reset`
abbrev pub reset : CryptoSession → CryptoSession
reset s = record { mode = CryptoMode.none; configured = false; parameters = no_parameters }

pub configure : CryptoSession → CryptoParameters → Bool × CryptoSession
configure s p =
    let r = reset s in
    if not (valid p)
    then (false, r)
    else (true, record r { parameters = p; mode = CryptoMode.legacy_sdp; configured = true })

-- `configure` succeeds exactly for valid parameters; a session that it leaves configured has them, and one
-- that it leaves otherwise is as after `reset`.
pub configure_lem :
    (s : CryptoSession) (p : CryptoParameters)
    → ((configure s p).0 ≡ valid p)
      × ((configure s p).1.configured ≡ valid p)
      × ((configure s p).1.parameters ≡ (if valid p then p else no_parameters))
unfolding configure
configure_lem s p = ground arith
