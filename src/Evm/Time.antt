-- ===== src/Evm/Time.antt =====
-- `assert_time` of r402-evm/src/exact/facilitator/verify.rs, over `UnixTimestamp` of
-- r402/src/proto/timestamp.rs, a u64 whose sums wrap.
use r.Base.{ℕ, ◌+◌, ◌%◌, ◌^◌, ◌≤◌, ◌<◌, ◌≡◌, ◌↔◌, Outcome, ok, err, ◌>>◌, refuse, ltb, arith}
use r.Proto.Error.{PaymentVerificationError, expired, early}

abbrev pub add_u64 : ℕ → ℕ → ℕ
add_u64 a b = (a + b) % 2 ^ 64

unfoldable pub assert_time : ℕ → ℕ → ℕ → ℕ → Outcome (Unit {0}) PaymentVerificationError
assert_time now valid_after valid_before tolerance = do
  refuse (ltb valid_before (add_u64 now tolerance)) expired
  refuse (ltb (add_u64 now tolerance) valid_after) early

module _ (now valid_after valid_before tolerance : ℕ) (fits : now + tolerance < 2 ^ 64) where
  -- An authorization passes exactly if its window, both ends included, contains the clock's time put
  -- forward by the tolerance.
  pub assert_time_iff :
      (assert_time now valid_after valid_before tolerance ≡ ok tt)
      ↔ ((valid_after ≤ now + tolerance) × (now + tolerance ≤ valid_before))
  unfolding assert_time
  assert_time_iff = ground arith

  -- The tolerance is no grace for an authorization that is about to expire: where the clock put
  -- forward by the tolerance is a u64, one that has started and whose end is not before the clock,
  -- the end itself included, is refused as expired if it ends before the tolerance has passed, and
  -- would pass with no tolerance.
  pub tolerance-expired :
      valid_after ≤ now
      → now ≤ valid_before
      → valid_before < now + tolerance
      → (assert_time now valid_after valid_before tolerance ≡ err expired)
        × (assert_time now valid_after valid_before 0 ≡ ok tt)
  unfolding assert_time
  tolerance-expired started running close = ground arith
