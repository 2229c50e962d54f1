-- ===== src/Land/Drops.antt =====
-- `_sc_land_drop_column` to `sc_land_drop` of sgame/sland.c as a whole.
use xscorch.Prelude.{
  ℕ, zero, suc, ◌+◌, ◌-◌, ◌*◌, ◌≤◌, ◌<◌, Bool, false, ◌≡◌, refl, ◌∙◌, arith, leb, ◌||◌,
  if◌then◌else◌, Bool-cases, inl, inr, length,
}
use xscorch.Prelude.Int.{ℤ, pos, ◌+ℤ◌, pos_part}
use xscorch.Land.{Land, translate_x}
use xscorch.Land.Coords.{translate_x_lem}
use xscorch.Land.Columns.{
  is_ground, skip_ground, skip_gap, fall_rounds, Scene, max_drop_allow, drop_real_column,
  drop_column, drop_zone,
}
use xscorch.Land.Falls.{
  grounds, grounds-fall, length-fall, skip_ground_lem, skip_gap_lem, scans_apart,
}

-- A land whose screen has a cell for each place.
pub record IsField (l : Land) : Type 0 where
  pub some_width : 0 < l.width
  pub area : length l.screen ≡ l.width * l.height

-- What is assumed of the configuration: sky is not ground, and a fall is allowed some distance.
pub record IsScene (c : Scene) : Type 0 where
  pub open_sky : (y : ℕ) → is_ground (c.sky y) ≡ false
  pub some_field : 0 < c.fieldheight

column_fits : (x w h : ℕ) → x < w → x * h + h ≤ w * h
column_fits x zero h k = elim k [ ]
column_fits zero (suc w) h k = ground arith
column_fits (suc x) (suc w) h k = let r = column_fits x w h (omega arith) in ground arith

some_drop : (c : Scene) → IsScene c → 0 < max_drop_allow c
some_drop c h = let f = h.some_field in ground arith

-- What a fall leaves as it was.
pub record IsFallen (l l' : Land) : Type 0 where
  pub same_width : l'.width ≡ l.width
  pub same_height : l'.height ≡ l.height
  pub same_flags : l'.flags ≡ l.flags
  pub same_area : length l'.screen ≡ length l.screen
  pub same_ground : grounds l'.screen ≡ grounds l.screen

module _ {c : Scene} (scene : IsScene c) where
  real_column_grounds :
      (l : Land) (x : ℕ)
      → IsField l
      → x < l.width
      → grounds (drop_real_column c l x).1.screen ≡ grounds l.screen
  unfolding drop_real_column
  real_column_grounds l x f k =
      let base = x * l.height in
      let y1 = skip_ground l.height l.screen base 0 in
      let y2 = skip_gap (l.height - y1) l.screen base y1 in
      let rounds = fall_rounds (l.height - y2) in
      let allow = max_drop_allow c in
      let down = if leb allow (y2 - y1) then y2 - allow else y1 in
      let (a, b, _) = skip_ground_lem l.height l.screen base 0 in
      let (d, e, gap, _) = skip_gap_lem (l.height - y1) l.screen base y1 in
      let pos_allow = some_drop c scene in
      let below : y1 < y2 → down < y2 = λ m. ground arith in
      let lower : (j : ℕ) → down ≤ j → y1 ≤ j = λ j m. ground arith in
      let fits = column_fits x l.width l.height k in
      let area = f.area in
      let rounds_fit : y2 < l.height → base + y2 + rounds ≤ length l.screen = λ m. ground arith in
      elim (Bool-cases (leb l.height y2)) [
        | inl t ↦ rw t refl
        | inr t ↦ rw t (
            grounds-fall c.sky scene.open_sky base rounds l.screen down y2
              (below (scans_apart l.height base l.screen (ground arith)))
              (rounds_fit (ground arith)) (λ j m o. gap j (lower j m) o))
      ]

  rest :
      (l : Land) (x : ℕ)
      → ((drop_real_column c l x).1.width ≡ l.width)
        × ((drop_real_column c l x).1.height ≡ l.height)
        × ((drop_real_column c l x).1.flags ≡ l.flags)
        × (length (drop_real_column c l x).1.screen ≡ length l.screen)
  unfolding drop_real_column
  rest l x =
      let base = x * l.height in
      let y1 = skip_ground l.height l.screen base 0 in
      let y2 = skip_gap (l.height - y1) l.screen base y1 in
      elim (Bool-cases (leb l.height y2)) [
        | inl t ↦ rw t (refl, refl, refl, refl)
        | inr t ↦ rw t (refl, refl, refl, length-fall c.sky scene.open_sky base _ l.screen _ y2)
      ]

  real_column_IsFallen :
      (l : Land) (x : ℕ) → IsField l → x < l.width → IsFallen l (drop_real_column c l x).1
  real_column_IsFallen l x f k = record {
    same_width = (rest l x).0;
    same_height = (rest l x).1;
    same_flags = (rest l x).2;
    same_area = (rest l x).3;
    same_ground = real_column_grounds l x f k;
  }

  column_IsFallen : (l : Land) (x : ℤ) → IsField l → IsFallen l (drop_column c l x).1
  unfolding drop_column
  column_IsFallen l x f = elim (Bool-cases (translate_x l x).0) [
    | inl e ↦
        let (inside, _, _, _, _) = translate_x_lem l x f.some_width in
        let r = inside e in
        rw e (real_column_IsFallen l (pos_part (translate_x l x).1) f (ground arith))
    | inr e ↦ rw e (record {
      same_width = refl;
      same_height = refl;
      same_flags = refl;
      same_area = refl;
      same_ground = refl;
    })
  ]

  IsFallen-IsField : (l l' : Land) → IsFallen l l' → IsField l → IsField l'
  IsFallen-IsField l l' r f = record {
    some_width = rw r.same_width f.some_width;
    area = r.same_area ∙ f.area ∙ rw (r.same_width, r.same_height) refl;
  }

  -- Letting the columns of an interval fall neither makes nor loses a cell of ground, on any land,
  -- wherever the interval lies; it leaves the size of the land and its walls as they are. Assumed: the
  -- screen has a cell for each place of a land that is not empty, no sky is ground, and the field has
  -- a height.
  pub drop_zone-IsFallen :
      (columns : ℕ) (x : ℤ) (more : Bool) (l : Land)
      → IsField l
      → IsFallen l (drop_zone c columns x (more, l)).1
  unfolding drop_zone
  drop_zone-IsFallen zero x more l f = record {
    same_width = refl;
    same_height = refl;
    same_flags = refl;
    same_area = refl;
    same_ground = refl;
  }
  drop_zone-IsFallen (suc columns) x more l f =
      let l' = (drop_column c l x).1 in
      let r = column_IsFallen l x f in
      let s =
        drop_zone-IsFallen columns (x +ℤ pos 1) ((drop_column c l x).0 || more) l'
          (IsFallen-IsField l l' r f) in
      record {
        same_width = s.same_width ∙ r.same_width;
        same_height = s.same_height ∙ r.same_height;
        same_flags = s.same_flags ∙ r.same_flags;
        same_area = s.same_area ∙ r.same_area;
        same_ground = s.same_ground ∙ r.same_ground;
      }
