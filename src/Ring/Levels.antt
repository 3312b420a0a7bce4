-- ===== src/Ring/Levels.antt =====
-- `ring_full`, `ring_empty` and `ring_lf_count` against the contents.
use libchan.Base.{◌<◌, ◌≡◌, true, false, length, arith}
use libchan.Ring.{Ring, is_empty, is_full, count}
use libchan.Ring.Valid.{IsValid, contents, length-contents}
use libchan.Ring.Burst.{size}

module _ {A : Type 0} where
  pub is_empty-false : {r : Ring A} → IsValid r → 0 < size r → is_empty r ≡ false
  unfolding is_empty
  is_empty-false {r} v h = ground arith

  pub is_empty-true : {r : Ring A} → IsValid r → size r ≡ 0 → is_empty r ≡ true
  unfolding is_empty
  is_empty-true {r} v h = ground arith

  pub is_full-false : {r : Ring A} → IsValid r → size r < r.capacity → is_full r ≡ false
  unfolding is_full
  is_full-false {r} v h = ground arith

  pub is_full-true : {r : Ring A} → IsValid r → size r ≡ r.capacity → is_full r ≡ true
  unfolding is_full
  is_full-true {r} v h = ground arith

  pub count-eq-length : {r : Ring A} → IsValid r → count r ≡ length (contents r)
  unfolding count
  count-eq-length {r} v = omega (arith, length-contents v, v.prod_done)
