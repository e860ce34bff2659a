-- ===== src/Sensor/Manager/Samples.antt =====
-- What the samples of a measurement are worth.
use hydro_logger.Prelude.{
  ℕ, zero, suc, ◌+◌, ◌≡◌, refl, ℤ, pos, Bool, true, false, ◌&&◌, some, List, [], ◌∷◌, if◌then◌else◌,
  length, arith,
}
use hydro_logger.LogBuffer.{LogBuffer}
use hydro_logger.Sensor.{Sensor}
use hydro_logger.Sensor.Manager.{is_valid_distance, try_read, read_samples, read3}

unfoldable pub all_valid : List ℤ → Bool
all_valid [] = true
all_valid (mm ∷ out) = is_valid_distance mm && all_valid out

module _ {S : Type 0} (sensor : Sensor S) where
  -- A reading that the loop accepts is valid.
  Good : Bool × ℤ × LogBuffer × S → Type 0
  Good r = r.0 ≡ true → is_valid_distance r.1 ≡ true

  choose-Good :
      (b : Bool) (x y : Bool × ℤ × LogBuffer × S)
      → (b ≡ true → Good x)
      → (b ≡ false → Good y)
      → Good (if b then x else y)
  choose-Good true x y f g = f refl
  choose-Good false x y f g = g refl

  try_read-Good : (n r : ℕ) (mm : ℤ) (log : LogBuffer) (s : S) → Good (try_read sensor n r mm log s)
  unfolding try_read Good
  try_read-Good zero r mm log s = λ h. ground (arith, h)
  try_read-Good (suc n) r mm log s =
      let q = sensor.read_distance_mm mm log s in
      choose-Good q.0 _ _
        (λ _.
          choose-Good (is_valid_distance q.1) _ _ (λ v _. v)
            (λ _. try_read-Good n (r + 1) q.1 _ q.3))
        (λ _. try_read-Good n (r + 1) q.1 _ q.3)

  -- What one sample adds to the result.
  sample_lem :
      (ok all : Bool) (mm : ℤ) (out : List ℤ)
      → (ok ≡ true → is_valid_distance mm ≡ true)
      → all ≡ all_valid out
      → (ok && all) ≡ all_valid ((if ok then mm else pos 0) ∷ out)
  unfolding all_valid is_valid_distance
  sample_lem true all mm out h e = ground (arith, h refl, e)
  sample_lem false all mm out h e = refl

  read_samples-valid :
      (n : ℕ) (log : LogBuffer) (s : S)
      → (length (read_samples sensor n log s).1 ≡ n)
        × ((read_samples sensor n log s).0 ≡ all_valid (read_samples sensor n log s).1)
  unfolding read_samples all_valid Good
  read_samples-valid zero log s = (refl, refl)
  read_samples-valid (suc n) log s =
      let q = try_read sensor 5 0 (pos 0) log s in
      let (size, rest) = read_samples-valid n q.2 q.3 in
      (
        omega (arith, size),
        sample_lem q.0 _ q.1 (read_samples sensor n q.2 q.3).1 (try_read-Good 5 0 (pos 0) log s)
            rest,
      )

  pub read3-valid :
      (out : List ℤ) (log : LogBuffer) (s : S)
      → (length (read3 (some sensor) out log s).1 ≡ 3)
        × ((read3 (some sensor) out log s).0 ≡ all_valid (read3 (some sensor) out log s).1)
  unfolding read3
  read3-valid out log s = read_samples-valid 3 log s
