-- ===== src/File/Lines.antt =====
-- The texts that storage/file/certauth.go handles: the lines of a bufio.Scanner, strings.Contains and
-- strings.Split at a comma. The scanner's limit on the length of a line is left out.
use Prim.Native.Char.{code}
use Prim.Native.String.{[], ◌∷◌}
use text.Mathlib.Text.{find?}
use mathlib.Core.List.{List, [] as nil, ◌∷◌ as ◌▸◌}
use nanomdm.Common.{ℕ, String, Bool, true, false, none, some, ◌==◌, eqb, if◌then◌else◌}

abbrev pub contains : String → String → Bool
contains s t = elim (find? s t) [ none ↦ false | some _ ↦ true ]

-- The pieces between the occurrences of a character, the first apart: there is always one.
abbrev pub pieces : ℕ → String → String × List String
pieces at [] = ("", nil)
pieces at (ch ∷ s) =
    let (first, rest) = pieces at s in
    if eqb (code ch) at then ("", first ▸ rest) else (ch ∷ first, rest)

-- a carriage return at the end is dropped
abbrev drop_cr : String → String
drop_cr [] = ""
drop_cr (ch ∷ []) = if eqb (code ch) 13 then "" else ch ∷ ""
drop_cr (ch ∷ d ∷ s) = ch ∷ drop_cr (d ∷ s)

-- the piece behind the last newline counts unless it is empty
abbrev to_lines : String → List String → List String
to_lines first nil = if first == "" then nil else drop_cr first ▸ nil
to_lines first (next ▸ rest) = drop_cr first ▸ to_lines next rest

abbrev pub lines : String → List String
lines s = let (first, rest) = pieces 10 s in to_lines first rest
