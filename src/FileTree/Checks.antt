-- ===== src/FileTree/Checks.antt =====
-- `main` of hw8 on a directory with one file.
use otus_c.Prelude.{ℕ, ◌≡◌, inr, refl, false, List, [], ◌∷◌, Option, none, some, arith}
use otus_c.Prelude.Bytes.{CString}
use otus_c.FileTree.{Glib, message, window, Opt, input, run, read_options, main}
use otus_c.FileTree.Window.{main-no_rows}

abbrev names_of : Option ℕ → List CString
names_of none = []
names_of (some dir) = (b'f' ∷ []) ∷ []

abbrev files : Glib ℕ
files = record { dir_open = λ path. some 1; read_names = names_of; is_dir = λ path. some false }

abbrev options : List Opt
options = input (b'd' ∷ []) ∷ []

options-path : read_options none options ≡ inr (some (b'd' ∷ []))
unfolding read_options
options-path = refl

main-no_rows_test :
    ((dir : ℕ) → ◌≡◌ {A = Option ℕ} (some 1) (some dir) → main files 1 options ≡ some (run message))
    × (◌≡◌ {A = Option ℕ} (some 1) none → main files 1 options ≡ some (run (window [])))
main-no_rows_test = main-no_rows files 1 options (b'd' ∷ []) (omega arith) refl options-path
