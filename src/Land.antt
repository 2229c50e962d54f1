-- ===== src/Land.antt =====
-- The land: `sc_land` of sgame/sland.h, and the translation of coordinates of sgame/sland.c. The
-- screen is the array of the source, a column after another. Coordinates are integers; the width and
-- the height are numbers, which the configuration keeps above zero. The double versions of these
-- functions are not modelled.
pub mod Coords
pub mod Columns
pub mod Falls
pub mod Drops
mod Tests
use xscorch.Prelude.{
  ℕ, zero, suc, ◌+◌, ◌-◌, ◌*◌, List, Bool, true, false, ltb, leb, if◌then◌else◌, get_or,
}
use xscorch.Prelude.Int.{ℤ, pos, ◌+ℤ◌, ◌-ℤ◌, pos_part, neg_part, ltb_ℤ, leb_ℤ}
use xscorch.Items.{has_bit}

pub record Land : Type 0 where
  pub width : ℕ
  pub height : ℕ
  pub flags : ℕ
  pub screen : List ℕ

abbrev pub wrap_x_flag : ℕ
wrap_x_flag = 0x0001

abbrev pub wall_x_flag : ℕ
wall_x_flag = 0x0002

abbrev pub ceiling_flag : ℕ
ceiling_flag = 0x0100

abbrev pub wraps : Land → Bool
wraps l = has_bit l.flags wrap_x_flag

abbrev pub walled : Land → Bool
walled l = has_bit l.flags wall_x_flag

-- `while(x >= width) x -= width;` and `while(x < 0) x += width;`, on fuel.
unfoldable pub wrap_down : ℕ → ℕ → ℤ → ℤ
wrap_down zero w x = x
wrap_down (suc fuel) w x =
    let rest = wrap_down fuel w (x -ℤ pos w) in if leb_ℤ (pos w) x then rest else x

unfoldable pub wrap_up : ℕ → ℕ → ℤ → ℤ
wrap_up zero w x = x
wrap_up (suc fuel) w x =
    let rest = wrap_up fuel w (x +ℤ pos w) in if ltb_ℤ x (pos 0) then rest else x

-- Each round of a loop brings the coordinate at least one closer, so its distance is fuel enough.
unfoldable pub wrap : ℕ → ℤ → ℤ
unfolding wrap_down wrap_up
wrap w x = let x' = wrap_down (pos_part x) w x in wrap_up (neg_part x') w x'

-- The answer, beside what is written to `*x`.
unfoldable pub translate_x : Land → ℤ → Bool × ℤ
unfolding wrap
translate_x l x =
    if wraps l
    then (true, wrap l.width x)
    else if walled l
    then if leb_ℤ (pos l.width) x
      then (false, pos l.width -ℤ pos 1)
      else if ltb_ℤ x (pos 0)
      then (false, pos 0)
      else (true, x)
    else if leb_ℤ (pos l.width) x
    then (false, x)
    else if ltb_ℤ x (pos 0)
    then (false, x)
    else (true, x)

unfoldable pub translate_y : Land → ℤ → Bool × ℤ
translate_y l y =
    if has_bit l.flags ceiling_flag
    then if leb_ℤ (pos l.height) y
      then (false, pos l.height -ℤ pos 1)
      else if ltb_ℤ y (pos 0)
      then (false, pos 0)
      else (true, y)
    else if ltb_ℤ y (pos 0)
    then (false, pos 0)
    else if leb_ℤ (pos l.height) y
    then (false, y)
    else (true, y)

-- The two loops of `sc_land_translate_x_range`, which move an interval as a whole, on fuel.
unfoldable pub range_down : ℕ → ℕ → ℤ × ℤ → ℤ × ℤ
range_down zero w (x1, x2) = (x1, x2)
range_down (suc fuel) w (x1, x2) =
    let rest = range_down fuel w (x1 -ℤ pos w, x2 -ℤ pos w) in
    if leb_ℤ (pos w) x1 then rest else (x1, x2)

unfoldable pub range_up : ℕ → ℕ → ℤ × ℤ → ℤ × ℤ
range_up zero w (x1, x2) = (x1, x2)
range_up (suc fuel) w (x1, x2) =
    let rest = range_up fuel w (x1 +ℤ pos w, x2 +ℤ pos w) in
    if ltb_ℤ x2 (pos 0) then rest else (x1, x2)

unfoldable pub translate_x_range : Land → ℤ × ℤ → Bool × (ℤ × ℤ)
unfolding range_down range_up
translate_x_range l (x1, x2) =
    if ltb_ℤ x2 x1
    then (false, (x1, x2))
    else if wraps l
    then (let r = range_down (pos_part x1) l.width (x1, x2) in
        (true, range_up (neg_part r.1) l.width r))
    else (let x2' = if leb_ℤ (pos l.width) x2 then pos l.width -ℤ pos 1 else x2 in
        if leb_ℤ (pos l.width) x1
        then (false, (x1, x2'))
        else if ltb_ℤ x2' (pos 0)
        then (false, (x1, x2'))
        else if ltb_ℤ x1 (pos 0)
        then (true, (pos 0, x2'))
        else (true, (x1, x2')))

abbrev pub abs : ℤ → ℕ
abs x = pos_part x + neg_part x

-- `sc_land_calculate_deltas`, whose answer is true for any land that there is.
unfoldable pub calculate_deltas : Land → ℤ → ℤ → ℤ → ℤ → ℤ × ℤ
unfolding translate_x translate_y
calculate_deltas l x1 y1 x2 y2 =
    let dx = (translate_x l x2).1 -ℤ (translate_x l x1).1 in
    let dy = (translate_y l y2).1 -ℤ (translate_y l y1).1 in
    let d2x = dx +ℤ pos l.width in
    if wraps l then (if ltb (abs d2x) (abs dx) then (d2x, dy) else (dx, dy)) else (dx, dy)
