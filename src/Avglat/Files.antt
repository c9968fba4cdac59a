-- ===== src/Avglat/Files.antt =====
-- The files of tgid_avglat.c under /proc: pid_runqlat_init and pid_runqlat_exit.
use uio_linux_sample.Prelude.{
  arith, ◌≡◌, List, [], ◌∷◌, Bool, true, false, Option, none, some, if◌then◌else◌,
}
use uio_linux_sample.Prelude.Words.{ℤ, pos}

-- An entry of /proc: the directory, or one of the two files, in the directory or beside it.
pub data Entry : Type 0 where
  directory : Entry
  pid_file runqlat_file : Bool → Entry

pub record Answers : Type 0 where
  pub proc_mkdir : Bool
  pub create_pid : Bool
  pub create_runqlat : Bool

-- remove_proc_subtree takes the directory and what is in it.
abbrev pub in_subtree : Entry → Bool
in_subtree directory = true
in_subtree (pid_file inside) = inside
in_subtree (runqlat_file inside) = inside

abbrev pub remove_proc_subtree : List Entry → List Entry
remove_proc_subtree [] = []
remove_proc_subtree (e ∷ l) =
    let rest = remove_proc_subtree l in if in_subtree e then rest else e ∷ rest

-- Without its directory proc_create_data makes a file of /proc itself. `none` is a return without
-- a value.
unfoldable pub pid_runqlat_init : Answers → Option ℤ × List Entry
pid_runqlat_init a =
    let dir = if a.proc_mkdir then directory ∷ [] else [] in
    let with_pid = pid_file a.proc_mkdir ∷ dir in
    if a.create_pid
    then if a.create_runqlat
      then (some (pos 0), runqlat_file a.proc_mkdir ∷ with_pid)
      else (none, remove_proc_subtree with_pid)
    else (none, remove_proc_subtree dir)

unfoldable pub pid_runqlat_exit : List Entry → List Entry
pid_runqlat_exit l = remove_proc_subtree l

-- The entries that outlive a load and an unload.
abbrev pub left_over : Answers → List Entry
left_over a =
    if a.proc_mkdir
    then []
    else if a.create_pid
    then if a.create_runqlat then runqlat_file false ∷ pid_file false ∷ [] else pid_file false ∷ []
    else []

-- A load succeeds exactly when both files are created, and is the only one to return a value;
-- nothing of it is left after the unload if the directory was created. If it was not, each file
-- that was created stays in /proc itself after the unload, as it does after a load that failed.
pub pid_runqlat_init-cases :
    (a : Answers)
    → ((pid_runqlat_init a).0
        ≡ (if a.create_pid then if a.create_runqlat then some (pos 0) else none else none))
      × (pid_runqlat_exit (pid_runqlat_init a).1 ≡ left_over a)
unfolding pid_runqlat_init pid_runqlat_exit
pid_runqlat_init-cases a = ground arith
