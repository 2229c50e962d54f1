-- ===== src/Land/Columns.antt =====
-- The columns of the land: their heights, and how they fall (`_sc_land_height` to
-- `sc_land_avg_height_around`, and `_sc_land_drop_column` to `sc_land_drop`, of sgame/sland.c). Of
-- the configuration, a fall reads whether animation is off, `fieldheight`, and what the sky looks
-- like at a height; that is a parameter. Repainting is left out. Heights are numbers.
pub mod Heights
use Prim.Native.Nat.{bit_and}
use xscorch.Prelude.{
  ℕ, zero, suc, ◌+◌, ◌-◌, ◌*◌, ◌/◌, List, Bool, true, false, not, ◌||◌, ltb, leb, ◌==◌, Option,
  none, some, if◌then◌else◌, get_or, set,
}
use xscorch.Prelude.Int.{ℤ, pos, ◌+ℤ◌, ◌-ℤ◌, pos_part}
use xscorch.Items.{has_bit}
use xscorch.Land.{Land, translate_x}

abbrev pub type_mask : ℕ
type_mask = 0xffff00

-- The night sky, the fire sky and smoke.
abbrev pub sky_bits : ℕ
sky_bits = 0x100300

abbrev pub ground_bit : ℕ
ground_bit = 0x010000

-- `SC_LAND_IS_SKY` and `SC_LAND_IS_GROUND`
unfoldable pub is_sky : ℕ → Bool
is_sky v = has_bit (bit_and v type_mask) sky_bits

unfoldable pub is_ground : ℕ → Bool
is_ground v = has_bit (bit_and v type_mask) ground_bit

-- `*SC_LAND_XY(l, x, y)`
abbrev pub cell : Land → ℕ → ℕ → ℕ
cell l x y = get_or l.screen (x * l.height + y) 0

-- The scan down from y0, which does not look at the lowest cell.
unfoldable pub column_height : Land → ℕ → ℕ → ℕ
column_height l x zero = 0
column_height l x (suc y) =
    let rest = column_height l x y in if is_sky (cell l x (suc y)) then rest else suc y + 1

-- `if(y0 >= l->height) y0 = l->height - 1;`
abbrev pub bounded : Land → ℕ → ℕ
bounded l y0 = if leb l.height y0 then l.height - 1 else y0

-- The height at a virtual column, if it is one of the land.
unfoldable pub height_at : Land → ℤ → ℕ → Option ℕ
unfolding column_height
height_at l x y0 =
    let (ok, x') = translate_x l x in if ok then some (column_height l (pos_part x') y0) else none

unfoldable pub land_height : Land → ℤ → ℕ → ℕ
unfolding height_at
land_height l x y0 = elim (height_at l x (bounded l y0)) [ none ↦ 0 | some h ↦ h ]

-- The loops over an interval, with the number of columns left.
unfoldable pub max_from : Land → ℕ → ℕ → ℤ → ℕ → ℕ
max_from l y0 zero x height = height
max_from l y0 (suc rounds) x height = elim (height_at l x y0) [
  | none ↦ max_from l y0 rounds (x +ℤ pos 1) height
  | some ch ↦ max_from l y0 rounds (x +ℤ pos 1) (if ltb height ch then ch else height)
]

unfoldable pub min_from : Land → ℕ → ℕ → ℤ → ℕ → ℕ
min_from l y0 zero x height = height
min_from l y0 (suc rounds) x height = elim (height_at l x y0) [
  | none ↦ min_from l y0 rounds (x +ℤ pos 1) height
  | some ch ↦ min_from l y0 rounds (x +ℤ pos 1) (if ltb ch height then ch else height)
]

-- The sum beside the count.
unfoldable pub sum_from : Land → ℕ → ℕ → ℤ → ℕ × ℕ → ℕ × ℕ
sum_from l y0 zero x (sum, count) = (sum, count)
sum_from l y0 (suc rounds) x (sum, count) = elim (height_at l x y0) [
  | none ↦ sum_from l y0 rounds (x +ℤ pos 1) (sum, count)
  | some ch ↦ sum_from l y0 rounds (x +ℤ pos 1) (sum + ch, count + 1)
]

unfoldable pub height_around : Land → ℤ → ℕ → ℕ → ℕ
height_around l x y0 w = max_from l (bounded l y0) (2 * w + 1) (x -ℤ pos w) 0

unfoldable pub min_height_around : Land → ℤ → ℕ → ℕ → ℕ
min_height_around l x y0 w = min_from l (bounded l y0) (2 * w + 1) (x -ℤ pos w) 0

-- `none` where the source divides by zero.
unfoldable pub avg_height_around : Land → ℤ → ℕ → ℕ → Option ℕ
avg_height_around l x y0 w =
    let (sum, count) = sum_from l (bounded l y0) (2 * w + 1) (x -ℤ pos w) (0, 0) in
    if count == 0 then none else some (sum / count)

-- The two scans up a column of `screen` that starts at `base`, with the number of cells left.
unfoldable pub skip_ground : ℕ → List ℕ → ℕ → ℕ → ℕ
skip_ground zero screen base y = y
skip_ground (suc rounds) screen base y =
    let rest = skip_ground rounds screen base (y + 1) in
    if is_ground (get_or screen (base + y) 0) then rest else y

unfoldable pub skip_gap : ℕ → List ℕ → ℕ → ℕ → ℕ
skip_gap zero screen base y = y
skip_gap (suc rounds) screen base y =
    let rest = skip_gap rounds screen base (y + 1) in
    if not (is_ground (get_or screen (base + y) 0)) then rest else y

-- One round of the fall: the cell at `y` goes to `down`, if it is ground.
unfoldable pub fall_cell : (ℕ → ℕ) → ℕ → List ℕ → ℕ → ℕ → List ℕ
fall_cell sky base screen down y =
    if is_ground (get_or screen (base + y) 0)
    then set (set screen (base + down) (get_or screen (base + y) 0)) (base + y) (sky y)
    else screen

unfoldable pub fall : (ℕ → ℕ) → ℕ → ℕ → List ℕ → ℕ → ℕ → List ℕ
fall sky base zero screen down y = screen
fall sky base (suc rounds) screen down y =
    fall sky base rounds (fall_cell sky base screen down y) (down + 1) (y + 1)

-- SC_LAND_MAX_AMOUNT and SC_LAND_MAX_DROP_PER_CYCLE
abbrev pub max_amount : ℕ
max_amount = 48

abbrev pub max_drop_per_cycle : ℕ
max_drop_per_cycle = 48

pub record Scene : Type 0 where
  pub no_anim : Bool
  pub fieldheight : ℕ
  pub sky : ℕ → ℕ

abbrev pub max_drop_allow : Scene → ℕ
max_drop_allow c = if c.no_anim then c.fieldheight else max_drop_per_cycle

-- The rounds of the falling loop, `dy` from `max_amount` down to 0, up to the top of the column.
abbrev pub fall_rounds : ℕ → ℕ
fall_rounds left = if leb left (max_amount + 1) then left else max_amount + 1

-- A column that is on the land.
unfoldable pub drop_real_column : Scene → Land → ℕ → Bool × Land
drop_real_column c l x =
    let base = x * l.height in
    let y1 = skip_ground l.height l.screen base 0 in
    let y2 = skip_gap (l.height - y1) l.screen base y1 in
    let maxdrop = y2 - y1 in
    let allow = max_drop_allow c in
    let down = if leb allow maxdrop then y2 - allow else y1 in
    let rounds = fall_rounds (l.height - y2) in
    if leb l.height y2 then (false, l) else (
      leb allow maxdrop || ltb (y2 + rounds) l.height,
      record l { screen = fall c.sky base rounds l.screen down y2 },
    )

unfoldable pub drop_column : Scene → Land → ℤ → Bool × Land
unfolding drop_real_column
drop_column c l x =
    let (ok, x') = translate_x l x in if ok then drop_real_column c l (pos_part x') else (false, l)

-- The loop from x1 on, with the number of columns left.
unfoldable pub drop_zone : Scene → ℕ → ℤ → Bool × Land → Bool × Land
drop_zone c zero x (needrecurse, l) = (needrecurse, l)
drop_zone c (suc columns) x (needrecurse, l) =
    let (more, l') = drop_column c l x in drop_zone c columns (x +ℤ pos 1) (more || needrecurse, l')
