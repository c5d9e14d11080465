-- ===== src/ServiceSync/Offset.antt =====
-- The byte arithmetic of internal/controller/servicesync_controller.go on addresses, as arithmetic on
-- their values.
use native.Mathlib.Nat.{mod-eq_of_lt}
use dynamic_prefix_operator.Prelude.{
  ℕ, zero, suc, ◌+◌, ◌-◌, ◌*◌, ◌/◌, ◌%◌, ◌^◌, ◌≤◌, ◌<◌, ◌≡◌, refl, sym, ap, ◌∙◌, arith, leb, ltb,
  length, List, [], ◌∷◌, if◌then◌else◌, not, ◌==◌, ◌&&◌, ◌||◌, some, none,
}
use dynamic_prefix_operator.Prelude.Powers.{pow-add}
use dynamic_prefix_operator.Bytes.{bytes, value_of, as_16}
use dynamic_prefix_operator.Bytes.Values.{mod_step}
use dynamic_prefix_operator.Net.{Addr}
use dynamic_prefix_operator.AddressRange.Suffix.{at_value}
use dynamic_prefix_operator.ServiceSync.{
  subtract_bytes, add_bytes, calculate_ip_offset, apply_ip_offset, offset_address_within, less,
}

digit :
    (t b r : ℕ)
    → t < 256
    → b < 256
    → r ≤ 1
    → (t + 512 - b - r) % 256 + b + r ≡ t + 256 * (if ltb t b || (t == b && r == 1) then 1 else 0)
digit t b r ht hb hr = ground arith

-- What a loop leaves: as many bytes as it was given, which spell a number that fits.
record IsDifference (k t b : ℕ) (r : List ℕ × ℕ) : Type 0 where
  size : length r.0 ≡ k
  fits : value_of r.0 < 2 ^ (8 * k)
  borrow : r.1 ≤ 1
  value : value_of r.0 + b % 2 ^ (8 * k) ≡ t % 2 ^ (8 * k) + 2 ^ (8 * k) * r.1

power_step : (k : ℕ) → 2 ^ (8 * suc k) ≡ 256 * 2 ^ (8 * k)
power_step k = let p : 8 * suc k ≡ 8 + 8 * k = omega arith in rw (p, pow-add 8 (8 * k)) refl

byte_fits : (d m v : ℕ) → d < 256 → v < m → d * m + v < 256 * m
byte_fits d m v hd hv = grind arith

subtract_bytes-IsDifference :
    (k t b : ℕ) → IsDifference k t b (subtract_bytes (bytes k t) (bytes k b))
unfolding subtract_bytes
subtract_bytes-IsDifference zero t b = record {
  size = refl;
  fits = omega arith;
  borrow = omega arith;
  value = omega arith;
}
subtract_bytes-IsDifference (suc k) t b =
    let ih = subtract_bytes-IsDifference k t b in
    let rest = subtract_bytes (bytes k t) (bytes k b) in
    let x = t / 2 ^ (8 * k) % 256 in
    let y = b / 2 ^ (8 * k) % 256 in
    let d = (x + 512 - y - rest.1) % 256 in
    let e = digit x y rest.1 (omega arith) (omega arith) ih.borrow in
    let m = 2 ^ (8 * k) in
    record {
      size = ap suc ih.size;
      fits = rw (ih.size, power_step k) (byte_fits d m (value_of rest.0) (omega arith) ih.fits);
      borrow = ground arith;
      value =
          rw (ih.size, mod_step k t, mod_step k b, power_step k)
            (omega (arith, ih.value, ap (λ (z : ℕ). z * m) e));
    }

record IsSum (k b o : ℕ) (r : List ℕ × ℕ) : Type 0 where
  size : length r.0 ≡ k
  fits : value_of r.0 < 2 ^ (8 * k)
  value : value_of r.0 + 2 ^ (8 * k) * r.1 ≡ b % 2 ^ (8 * k) + o

add_bytes-IsSum :
    (k b : ℕ) → (os : List ℕ) → length os ≡ k → IsSum k b (value_of os) (add_bytes (bytes k b) os)
unfolding add_bytes
add_bytes-IsSum zero b [] h = record { size = refl; fits = omega arith; value = omega arith }
add_bytes-IsSum zero b (o ∷ os) h = absurd (omega arith)
add_bytes-IsSum (suc k) b [] h = absurd (omega arith)
add_bytes-IsSum (suc k) b (o ∷ os) h =
    let n : length os ≡ k = omega arith in
    let ih = add_bytes-IsSum k b os n in
    let rest = add_bytes (bytes k b) os in
    let y = b / 2 ^ (8 * k) % 256 in
    let e : (y + o + rest.1) % 256 + 256 * ((y + o + rest.1) / 256) ≡ y + o + rest.1 =
      omega arith in
    let m = 2 ^ (8 * k) in
    record {
      size = ap suc ih.size;
      fits =
          rw (ih.size, power_step k)
            (byte_fits ((y + o + rest.1) % 256) m (value_of rest.0) (omega arith) ih.fits);
      value =
          rw (ih.size, n, mod_step k b, power_step k)
            (omega (arith, ih.value, ap (λ (z : ℕ). z * m) e));
    }

difference :
    (o b t r : ℕ)
    → b < 2 ^ 128
    → t < 2 ^ 128
    → o < 2 ^ 128
    → r ≤ 1
    → o + b ≡ t + 2 ^ 128 * r
    → (o ≡ (t + 2 ^ 128 - b) % 2 ^ 128) × ((r == 0) ≡ leb b t)
difference o b t r hb ht ho hr e = (ground arith, ground arith)

sum :
    (v b o c : ℕ)
    → v < 2 ^ 128
    → v + 2 ^ 128 * c ≡ b + o
    → (v ≡ (b + o) % 2 ^ 128) × ((c == 0) ≡ ltb (b + o) (2 ^ 128))
sum v b o c hv e = (ground arith, ground arith)

-- The offset is the distance, modulo the size of the address space, and the test says whether the
-- target is at or above the base.
pub calculate_ip_offset_lem :
    (base target : Addr)
    → base.value < 2 ^ 128
    → target.value < 2 ^ 128
    → (length (calculate_ip_offset base target).0 ≡ 16)
      × (value_of (calculate_ip_offset base target).0
          ≡ (target.value + 2 ^ 128 - base.value) % 2 ^ 128)
      × ((calculate_ip_offset base target).1 ≡ leb base.value target.value)
unfolding calculate_ip_offset
calculate_ip_offset_lem base target hb ht =
    let d = subtract_bytes-IsDifference 16 target.value base.value in
    let r = subtract_bytes (as_16 target) (as_16 base) in
    let fits : value_of r.0 < 2 ^ 128 = d.fits in
    let value : value_of r.0 + base.value ≡ target.value + 2 ^ 128 * r.1 =
      sym (ap (λ (x : ℕ). value_of r.0 + x) (mod-eq_of_lt hb))
      ∙ d.value
      ∙ ap (λ (x : ℕ). x + 2 ^ 128 * r.1) (mod-eq_of_lt ht) in
    let borrow : r.1 ≤ 1 = d.borrow in
    let of_value = difference (value_of r.0) base.value target.value r.1 hb ht fits borrow value in
    (d.size, of_value.0, of_value.1)

-- Adding an offset of 16 bytes: the sum modulo the size of the address space, and whether it is in it.
pub apply_ip_offset_lem :
    (base : Addr) (offset : List ℕ)
    → base.value < 2 ^ 128
    → length offset ≡ 16
    → apply_ip_offset base offset ≡ (
      at_value ((base.value + value_of offset) % 2 ^ 128),
      ltb (base.value + value_of offset) (2 ^ 128),
    )
unfolding apply_ip_offset
apply_ip_offset_lem base offset hb h =
    let s = add_bytes-IsSum 16 base.value offset h in
    let r = add_bytes (as_16 base) offset in
    let fits : value_of r.0 < 2 ^ 128 = s.fits in
    let value : value_of r.0 + 2 ^ 128 * r.1 ≡ base.value + value_of offset =
      s.value ∙ ap (λ (x : ℕ). x + value_of offset) (mod-eq_of_lt hb) in
    let of_value = sum (value_of r.0) base.value (value_of offset) r.1 fits value in
    rw (of_value.0, of_value.1) refl

back_to :
    (b t : ℕ)
    → b < 2 ^ 128
    → t < 2 ^ 128
    → ((b + (t + 2 ^ 128 - b) % 2 ^ 128) % 2 ^ 128 ≡ t)
      × (ltb (b + (t + 2 ^ 128 - b) % 2 ^ 128) (2 ^ 128) ≡ leb b t)
back_to b t hb ht = (omega arith, ground arith)

-- For any two addresses of 128 bits: applying the offset that was calculated from a base to a target
-- to that base gives the target back, and reports a carry exactly when the calculation reported a
-- borrow.
pub apply-calculate_ip_offset :
    (base target : Addr)
    → base.value < 2 ^ 128
    → target.value < 2 ^ 128
    → apply_ip_offset base (calculate_ip_offset base target).0
      ≡ (at_value target.value, (calculate_ip_offset base target).1)
apply-calculate_ip_offset base target hb ht =
    let c = calculate_ip_offset_lem base target hb ht in
    let b = back_to base.value target.value hb ht in
    rw (apply_ip_offset_lem base (calculate_ip_offset base target).0 hb c.0, c.1, c.2, b.0, b.1)
      refl

within :
    (b o l : ℕ)
    → b < 2 ^ 128
    → l < 2 ^ 128
    → (if not (ltb (b + o) (2 ^ 128))
        then none
        else if less (at_value ((b + o) % 2 ^ 128)) (at_value b)
            || less (at_value l) (at_value ((b + o) % 2 ^ 128))
        then none
        else some (at_value ((b + o) % 2 ^ 128)))
      ≡ (if leb (b + o) l then some (at_value (b + o)) else none)
within b o l hb hl = ground arith

-- An offset of 16 bytes from a base, with a last address, both of 128 bits and without zones: the
-- result is their sum when it is at most the last address, and nothing otherwise, also when the sum
-- does not fit 128 bits.
pub offset_address_within_lem :
    (base last : ℕ) (offset : List ℕ)
    → base < 2 ^ 128
    → last < 2 ^ 128
    → length offset ≡ 16
    → offset_address_within (at_value base) (at_value last) offset ≡ (
        if leb (base + value_of offset) last
        then some (at_value (base + value_of offset))
        else none)
unfolding offset_address_within
offset_address_within_lem base last offset hb hl h =
    rw (apply_ip_offset_lem (at_value base) offset hb h) (within base (value_of offset) last hb hl)
