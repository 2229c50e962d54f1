-- ===== src/Land/Tests.antt =====
-- A small land, and instances of the properties of sgame/sland.c on it.
use xscorch.Prelude.{ℕ, [], ◌∷◌, ◌+◌, ◌*◌, ◌<◌, ◌≤◌, ◌≡◌, ◌⊎◌, ◌↔◌, true, false, refl, arith, some}
use xscorch.Prelude.Int.{ℤ, pos, negsuc, ◌+ℤ◌, ◌-ℤ◌, ◌≤ℤ◌, ◌<ℤ◌}
use xscorch.Land.{Land, wraps, walled, translate_x, translate_x_range}
use xscorch.Land.Coords.{InRange, SameColumn, translate_x_lem, translate_x_range_lem}
use xscorch.Land.Columns.{is_ground, bounded, height_at, height_around, Scene, drop_zone}
use xscorch.Land.Columns.Heights.{height_around_lem}
use xscorch.Land.Drops.{IsField, IsScene, IsFallen, drop_zone-IsFallen}

-- A wrapping land of three columns: one with ground in the air, one of ground, one empty.
abbrev small : Land
small = record {
  width = 3;
  height = 3;
  flags = 0x0001;
  screen =
      0x000105 ∷ 0x000105 ∷ 0x010007 ∷ 0x010007 ∷ 0x010007 ∷ 0x000105 ∷ 0x000105 ∷ 0x000105
      ∷ 0x000105 ∷ [];
}

abbrev scene : Scene
scene = record { no_anim = false; fieldheight = 3; sky = λ y. 0x000105 }

translate_x_lem_example :
    ((translate_x small (negsuc 3)).0 ≡ true → InRange 3 (translate_x small (negsuc 3)).1)
    × (wraps small ≡ true
        → ((translate_x small (negsuc 3)).0 ≡ true)
          × SameColumn 3 (negsuc 3) (translate_x small (negsuc 3)).1)
    × (walled small ≡ true → InRange 3 (translate_x small (negsuc 3)).1)
    × (InRange 3 (negsuc 3)
        → ((translate_x small (negsuc 3)).0 ≡ true) × ((translate_x small (negsuc 3)).1 ≡ negsuc 3))
    × (wraps small ≡ false → (translate_x small (negsuc 3)).0 ≡ true → InRange 3 (negsuc 3))
translate_x_lem_example = translate_x_lem small (negsuc 3) (omega arith)

translate_x_range_lem_example :
    let (ok, (r1, r2)) = translate_x_range small (pos 4, pos 6) in
    (wraps small ≡ true → (ok ≡ true) × (r1 <ℤ pos 3) × (pos 0 ≤ℤ r2) × (r2 -ℤ r1 ≡ pos 6 -ℤ pos 4))
    × (wraps small ≡ false
        → (ok ≡ true → r1 ≤ℤ r2)
          × ((x : ℤ)
              → ((ok ≡ true) × (r1 ≤ℤ x) × (x ≤ℤ r2))
                ↔ ((pos 4 ≤ℤ x) × (x ≤ℤ pos 6) × InRange 3 x)))
translate_x_range_lem_example =
    translate_x_range_lem small (pos 4) (pos 6) (omega arith) (omega arith)

height_around_lem_example :
    ((k ch : ℕ)
      → k ≤ 2 * 1
      → height_at small (pos 0 -ℤ pos 1 +ℤ pos k) (bounded small 9) ≡ some ch
      → ch ≤ height_around small (pos 0) 9 1)
    × ((height_around small (pos 0) 9 1 ≡ 0)
        ⊎ ((k : ℕ) × (k < 2 * 1 + 1)
            × (height_at small (pos 0 -ℤ pos 1 +ℤ pos k) (bounded small 9)
                ≡ some (height_around small (pos 0) 9 1))))
height_around_lem_example = height_around_lem small (pos 0) 9 1

small-IsField : IsField small
small-IsField = record { some_width = omega arith; area = refl }

scene-IsScene : IsScene scene
unfolding is_ground
scene-IsScene = record { open_sky = λ y. refl; some_field = omega arith }

drop_zone-IsFallen_example : IsFallen small (drop_zone scene 3 (negsuc 0) (false, small)).1
drop_zone-IsFallen_example = drop_zone-IsFallen scene-IsScene 3 (negsuc 0) false small small-IsField
