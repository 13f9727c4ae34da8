-- ===== src/Examples/Shells.antt =====
-- Runs of src/shell.rs.
use neonet.Base.Text.{Text}
use neonet.Base.Results.{ok}
use neonet.Base.{◌++◌, List, [], refl, ◌∷◌, ◌≡◌}
use neonet.Base.Newest.{newest}
use neonet.Shell.History.{no_history, push_all, full_log, push_all-full_log}
use neonet.Shell.Words.{tokenize, quoted, tokenize-quoted}
use neonet.Shell.Drive.{
  Vfs, File, Dir, file, dir, vacant, child, child_at, node_at, new_vfs, empty_dir,
}
use neonet.Shell.Drive.Resolve.{split_path, parent_and_name}
use neonet.Shell.Drive.Contents.{write, cat}
use neonet.Shell.Drive.Apart.{write_line, apply, apply_apart}
use neonet.Shell.Drive.Writes.{text_before, ended, write-cat}

-- `ls`, a blank line, and `ls` again.
abbrev typed : List Text
typed = (108 ∷ 115 ∷ []) ∷ (32 ∷ []) ∷ (108 ∷ 115 ∷ 32 ∷ []) ∷ []

push_all-full_log_example : (push_all no_history typed).entries ≡ newest 50 (full_log [] typed)
unfolding newest
push_all-full_log_example = push_all-full_log no_history [] typed refl

-- `a b` and `'`
abbrev words : List Text
words = (97 ∷ 32 ∷ 98 ∷ []) ∷ (39 ∷ []) ∷ []

tokenize-quoted_example : tokenize (quoted words) ≡ words
unfolding neonet.Shell.Words.all_plain
tokenize-quoted_example = tokenize-quoted words refl

-- A drive with the directory `d` and the file `f`.
abbrev drive : Vfs
drive = record {
  root =
      child (100 ∷ []) empty_dir (child (102 ∷ []) (file (record { content = 120 ∷ [] })) vacant);
  cwd = (100 ∷ []) ∷ [];
}

apply_apart_example :
    node_at ((102 ∷ []) ∷ []) (apply (write_line (103 ∷ []) (121 ∷ [])) drive).1.root
    ≡ node_at ((102 ∷ []) ∷ []) drive.root
unfolding neonet.Shell.Drive.Lookup.diverges split_path
apply_apart_example = apply_apart (write_line (103 ∷ []) (121 ∷ [])) drive ((102 ∷ []) ∷ []) refl

-- `/f` and `/d`
write-cat_example :
    ((write drive (47 ∷ 102 ∷ []) (121 ∷ [])).0 ≡ ok tt)
    × (cat (write drive (47 ∷ 102 ∷ []) (121 ∷ [])).1 (47 ∷ 102 ∷ [])
        ≡ ok (ended (text_before (child_at (102 ∷ []) drive.root)) ++ (121 ∷ []) ++ 10 ∷ []))
unfolding parent_and_name neonet.Shell.Drive.dir_for child_at
write-cat_example =
    write-cat drive (47 ∷ 102 ∷ []) (121 ∷ []) [] (102 ∷ []) drive.root refl refl refl
