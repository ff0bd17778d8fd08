-- ===== src/FileTree.antt =====
-- hw8/src/main.c: a window with the tree of a directory. What GLib and the system answer is an
-- argument; the rows of the tree are listed in order, each with its depth. Of GTK only what is
-- shown is modelled.
pub mod Window
pub mod Checks
use otus_c.Prelude.{
  ℕ, zero, suc, ◌+◌, Bool, true, false, ◌||◌, List, [], ◌∷◌, ◌++◌, Option, none, some, ◌⊎◌, inl,
  inr, if◌then◌else◌, take, ◌>>=◌,
}
use otus_c.Prelude.Bytes.{CString}

-- What `g_dir_open` gives, what the calls of `g_dir_read_name` give until one gives a null pointer, and
-- whether the file that `g_stat` finds is a directory
pub record Glib (Dir : Type 0) : Type 0 where
  pub dir_open : CString → Option Dir
  pub read_names : Option Dir → List CString
  pub is_dir : CString → Option Bool

-- A row of the tree
pub record Row : Type 0 where
  pub depth : ℕ
  pub title : CString

-- Whether `error` is set, and the rows
abbrev pub Rows : Type 0
Rows = Bool × List Row

abbrev pub join : Rows → Rows → Rows
join (e, rows) (e', rows') = (e || e', rows ++ rows')

module _ {Dir : Type 0} (glib : Glib Dir) where
  -- The loop over the names of a directory; `sub` is the call for a directory in it. It ends where
  -- `g_stat` fails.
  abbrev pub add_names : (CString → Option Rows) → ℕ → CString → List CString → Option Rows
  add_names sub depth path [] = some (false, [])
  add_names sub depth path (dir_name ∷ names) =
      let buf = take 99 (path ++ (b'/' ∷ dir_name)) in
      let rest = add_names sub depth path names in
      let row : Row = record { depth = depth; title = dir_name } in
      elim (glib.is_dir buf) [
        | none ↦ some (false, row ∷ [])
        | some dir ↦ (do
          below ← if dir then sub buf else some (false, [])
          after ← rest
          some (join (false, row ∷ []) (join below after)))
      ]

  -- What follows the test of `dir`
  abbrev pub add_dir : (CString → Option Rows) → ℕ → CString → Option Dir → Option Rows
  add_dir sub depth path (some dir) = some (true, [])
  add_dir sub depth path none = add_names sub depth path (glib.read_names none)

  -- `none` is that the calls are nested deeper than the fuel allows.
  unfoldable pub render_tree_view : ℕ → ℕ → CString → Option Rows
  render_tree_view zero depth path = none
  render_tree_view (suc fuel) depth path =
      add_dir (render_tree_view fuel (depth + 1)) depth path (glib.dir_open path)

-- What `activate` comes to: the message, or the window with its rows
pub data Shown : Type 0 where
  message : Shown
  window : List Row → Shown

abbrev pub shown : Rows → Shown
shown (true, rows) = message
shown (false, rows) = window rows

unfoldable pub activate : {Dir : Type 0} → Glib Dir → ℕ → CString → Option Shown
activate glib fuel path = do rows ← render_tree_view glib fuel 0 path; some (shown rows)

-- What a call of `getopt` with "p:h" gives, before it gives -1; `other` is any other character.
pub data Opt : Type 0 where
  input : CString → Opt
  help : Opt
  other : ℕ → Opt

pub data Exit : Type 0 where
  usage : Exit
  invalid_option : ℕ → Exit
  missing_options : Exit
  run : Shown → Exit

unfoldable pub read_options : Option CString → List Opt → Exit ⊎ Option CString
read_options path [] = inr path
read_options path (input optarg ∷ opts) = read_options (some optarg) opts
read_options path (help ∷ opts) = inl usage
read_options path (other c ∷ opts) = inl (invalid_option c)

abbrev pub with_path : (CString → Option Shown) → Exit ⊎ Option CString → Option Exit
with_path act (inl e) = some e
with_path act (inr none) = some missing_options
with_path act (inr (some path)) = do s ← act path; some (run s)

-- `main`, where the application is activated once
unfoldable pub main : {Dir : Type 0} → Glib Dir → ℕ → List Opt → Option Exit
main glib fuel opts = with_path (activate glib fuel) (read_options none opts)
