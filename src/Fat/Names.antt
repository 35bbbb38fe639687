-- ===== src/Fat/Names.antt =====
-- The name of a directory item as one text: fat16_to_proper_string and
-- fat16_get_full_relative_filename. `in` is the item's bytes from the field on.
pub mod Copy
pub mod Full
use kernel_play.Prelude.{
  ℕ, ◌+◌, not, ◌&&◌, List, [], ◌∷◌, ◌++◌, if◌then◌else◌, ◌==◌, ◌-w◌, replicate,
}
use kernel_play.Prelude.Run.{Run, ok, fault, ◌>>=◌}
use kernel_play.Text.{store, load}
use kernel_play.Fat.Layout.{DirectoryItem}

-- `**out` is the byte of `out` at the offset `at`, which the result gives anew.
unfoldable pub to_proper_string : List ℕ → ℕ → List ℕ → ℕ → Run (ℕ × List ℕ)
to_proper_string out at [] size = fault
to_proper_string out at (c ∷ in') size =
    if c == 0
    then ok (at, out)
    else if c == 0x20
    then (do out' ← store out at 0; ok (at, out'))
    else (do
      out' ← store out at c
      let rest = to_proper_string out' (at + 1) in' (size -w 1)
      if size -w 1 == 0
          then (do
            d ← load in' 0
            if d == 0x20
                then (do out'' ← store out' (at + 1) 0; ok (at + 1, out''))
                else ok (at + 1, out'))
          else rest)

unfoldable pub get_full_relative_filename : DirectoryItem → ℕ → Run (List ℕ)
get_full_relative_filename item len = do
  let ext_on = item.ext ++ item.attribute ∷ []
  (at, out) ← to_proper_string (replicate len 0) 0 (item.filename ++ ext_on) 8
  first ← load item.ext 0
  if not (first == 0) && not (first == 0x20)
      then (do
        out' ← store out at b'.'
        (_, out'') ← to_proper_string out' (at + 1) ext_on 3
        ok out'')
      else ok out
