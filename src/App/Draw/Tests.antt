-- ===== src/App/Draw/Tests.antt =====
-- The witness of the theorem on where src/main.rs draws, with a layout that gives each area one row.
use rustybug.Prelude.{suc, ◌+◌, ◌-◌, true, false, none, some, All, arith}
use rustybug.App.{App}
use rustybug.App.Draw.{Rect, Areas, draw}
use rustybug.App.Draw.Within.{Splits, Inside, AllApart, draw_apart}
use rustybug.App.Start.{initial}

-- Row by row from the top, and no rows below the last one.
abbrev rows : Areas
rows l area i = record {
  x = area.x;
  y = area.y + (area.height - (area.height - i));
  width = area.width;
  height = (area.height - i) - (area.height - suc i);
}

rows-Splits : Splits rows
rows-Splits = record {
  within = λ l area i h. record {
    left = omega arith;
    top = omega arith;
    right = omega arith;
    bottom = omega arith;
  };
  below = λ l area i j vertical lt h. omega arith;
}

abbrev screen : Rect
screen = record { x = 0; y = 0; width = 80; height = 24 }

abbrev helped : App Unit Unit
helped = record (initial (record { input = none; pid = some 7 })) { show_help = true }

draw_apart_example :
    All (Inside screen) (draw rows helped screen)
    × AllApart (draw rows (record helped { show_help = false }) screen)
draw_apart_example = draw_apart rows rows-Splits helped screen
