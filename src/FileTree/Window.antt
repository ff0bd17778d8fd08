-- ===== src/FileTree/Window.antt =====
-- The window of hw8 shows no file.
use otus_c.Prelude.{ℕ, zero, suc, ◌<◌, ◌≡◌, inr, refl, ap, ◌∙◌, List, [], none, some, arith}
use otus_c.Prelude.Bytes.{CString}
use otus_c.FileTree.{
  Glib, render_tree_view, message, window, activate, Opt, run, read_options, with_path, main,
}

-- Given a path, `main` says that there was an error where the directory can be opened, and shows
-- a window without any row where it cannot, if GLib gives no name for a directory that is not
-- open; no deeper call is made.
pub main-no_rows :
    {Dir : Type 0} (glib : Glib Dir) (fuel : ℕ) (opts : List Opt) (path : CString)
    → 0 < fuel
    → glib.read_names none ≡ []
    → read_options none opts ≡ inr (some path)
    → ((dir : Dir) → glib.dir_open path ≡ some dir → main glib fuel opts ≡ some (run message))
      × (glib.dir_open path ≡ none → main glib fuel opts ≡ some (run (window [])))
unfolding main activate render_tree_view
main-no_rows glib zero opts path enough no_names given = absurd (omega (arith, enough))
main-no_rows glib (suc fuel) opts path enough no_names given = (
  λ dir e. ap (with_path (activate glib (suc fuel))) given ∙ rw e refl,
  λ e. ap (with_path (activate glib (suc fuel))) given ∙ rw (e, no_names) refl,
)
