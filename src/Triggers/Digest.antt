-- ===== src/Triggers/Digest.antt =====
-- `hmac.compare_digest`, with which internal/router.py and webhooks/service.py compare texts.
use Prim.Native.String.{len, count}
use constructor.Prelude.{
  String, ◌≡◌, ◌≢◌, Bool, true, false, ◌&&◌, eqb, ◌==◌, eq_iff, if◌then◌else◌, Bool-cases, inl, inr,
}
use constructor.Outcome.{Outcome, return, raise, type_error}

-- Each character is one byte of UTF-8.
unfoldable pub is_ascii : String → Bool
is_ascii text = eqb (len text) (count text)

-- Texts that are not ASCII are refused with a `TypeError`, whether they are equal or not.
unfoldable pub compare_digest : String → String → Outcome Bool
unfolding is_ascii
compare_digest a b = if is_ascii a && is_ascii b then return (a == b) else raise type_error

pub compare_digest-same : (a b : String) → compare_digest a b ≡ return true → a ≡ b
unfolding compare_digest
compare_digest-same a b h = elim (Bool-cases (is_ascii a && is_ascii b)) [
  | inr other ↦ cc (rw (other, compare_digest) at h)
  | inl ascii ↦ (eq_iff a b).0 (return_injective (rw (ascii, compare_digest) at h))
]
  where
    return_injective : {x y : Bool} → return x ≡ return y → x ≡ y
    return_injective e = cc

pub compare_digest-differs : (a b : String) → compare_digest a b ≡ return false → a ≢ b
unfolding compare_digest
compare_digest-differs a b h same = elim (Bool-cases (is_ascii a && is_ascii b)) [
  | inr other ↦ cc (rw (other, compare_digest) at h)
  | inl ascii ↦ cc ((eq_iff a b).1 same, rw (ascii, compare_digest) at h)
]
