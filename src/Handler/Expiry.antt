-- ===== src/Handler/Expiry.antt =====
-- When an upload has expired.
use fileloft.Base.{
  ℕ, ◌≤◌, ◌<◌, ◌≡◌, ◌⊎◌, refl, inl, inr, Option, none, some, arith, ltb, Bool-cases,
}
use fileloft.Error.{TusError, ok, err}
use fileloft.Handler.Base.{TusHandler, check_expiry}

-- The time is past the one at which the upload expires, if it has one.
abbrev pub IsExpired : ℕ → Option ℕ → Type 0
IsExpired now none = ⊥
IsExpired now (some expires_at) = expires_at < now

abbrev pub IsLive : ℕ → Option ℕ → Type 0
IsLive now none = Unit
IsLive now (some expires_at) = now ≤ expires_at

pub check_expiry-cases :
    (h : TusHandler) (now : ℕ) (o : Option ℕ)
    → (IsLive now o × (check_expiry h now o ≡ ok tt))
      ⊎ (IsExpired now o × (check_expiry h now o ≡ err TusError.gone))
check_expiry-cases h now none = inl (tt, refl)
check_expiry-cases h now (some at) = elim (Bool-cases (ltb at now)) [
  | inl past ↦ inr (ground (arith, past), rw past refl)
  | inr early ↦ inl (ground (arith, early), rw early refl)
]

pub check_expiry-IsLive :
    (h : TusHandler) (now : ℕ) (o : Option ℕ) → IsLive now o → check_expiry h now o ≡ ok tt
check_expiry-IsLive h now none live = refl
check_expiry-IsLive h now (some at) live = ground (arith, live)

pub IsLive-check_expiry :
    (h : TusHandler) (now : ℕ) (o : Option ℕ) → check_expiry h now o ≡ ok tt → IsLive now o
IsLive-check_expiry h now none passed = tt
IsLive-check_expiry h now (some at) passed = elim (Bool-cases (ltb at now)) [
  | inl past ↦ let refused = rw past at passed in cc
  | inr early ↦ ground (arith, early)
]
