-- ===== src/Tests/Cells.antt =====
-- A formatted cell.
use the_game_server.Tests.Data.{virus_cell}
use the_game_server.Entity.{Cell, avatar}
use the_game_server.Entity.Format.{read_cell, described, format_cell, read_cell-format_cell}
use the_game_server.Base.{◌^◌, ◌<◌, ◌≡◌, [], ◌∷◌, ◌++◌, arith, some}
use the_game_server.Base.{pos, negsuc}
use the_game_server.Base.Fixed.{Fixed, fixed_float}
use the_game_server.Wire.{ok}

bits-lt : (a : Fixed) → fixed_float.bits a < 2 ^ 32
unfolding fixed_float
bits-lt (pos n) = omega arith
bits-lt (negsuc n) = omega arith

-- An avatar of the seventh player.
abbrev avatar_cell : Cell Fixed
avatar_cell = record virus_cell { kind = avatar; player = some 7 }

read_cell-format_cell_example :
    read_cell (format_cell 7 avatar_cell [] ++ 9 ∷ []) ≡ (ok (described 7 avatar_cell), 9 ∷ [])
read_cell-format_cell_example =
    read_cell-format_cell bits-lt 7 avatar_cell (9 ∷ []) (omega arith) (omega arith) (omega arith)
