-- ===== src/Tests/Texts.antt =====
-- Texts as lists of bytes.
use kernel_play.Prelude.Codes.{codes}
use kernel_play.Prelude.{◌≡◌, refl, [], arith}
use kernel_play.Text.{istrncmp, toupper}
use kernel_play.Text.Length.{c_string}
use kernel_play.Text.Compare.{SameText, Decides, istrncmp_lem}

istrncmp_lem_example :
    Decides
      (SameText (codes "Hello.TXT") (codes "hello.txt"))
      (istrncmp (c_string (codes "Hello.TXT") []) (c_string (codes "hello.txt") []) 100)
istrncmp_lem_example =
    istrncmp_lem (codes "Hello.TXT") (codes "hello.txt") [] [] 100 (omega arith) (omega arith)
      (omega arith) (omega arith) (omega arith)

-- Only the first three letters have an upper case.
toupper_d : toupper b'd' ≡ b'd'
unfolding toupper
toupper_d = refl
