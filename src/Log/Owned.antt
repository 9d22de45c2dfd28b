-- ===== src/Log/Owned.antt =====
-- Baselib/LogManager.cpp: the log manager uses no FILE that is closed, as long as files can be renamed.
use iocp_netlib.Base.{
  ℕ, ◌*◌, ◌<◌, ◌≡◌, refl, ap, ◌∙◌, inl, inr, true, false, Option, none, some, List, [], ◌∷◌, ◌++◌,
  arith, ltb, Bool-cases, Option-cases, Text,
}
use iocp_netlib.Log.{LogCell}
use iocp_netlib.Log.Files.{
  LogFileObject, LogFiles, no_files, find_file, put_file, set_log_level, close, WriteAnswers,
  line_text, is_due, rotate, put_line, write_found, write_cell, close_one, close_all, uninit,
}
use iocp_netlib.Log.Table.{
  Table, one, count, holds, IsOwned, count-close, is_open-count, one_self, insert_file-IsOwned,
  owned_handle, replaced-IsOwned, kept-IsOwned,
}

-- A call of the log manager that touches its files
pub data Call : Type 0 where
  sets : Text → ℕ → Option ℕ → ℕ → Call
  writes : WriteAnswers → LogCell → Call

unfoldable pub call : Call → LogFiles → Option LogFiles
call (sets name level file now) fs = some (set_log_level name level file now fs).1
call (writes a c) fs = write_cell a c fs

unfoldable pub run : List Call → LogFiles → Option LogFiles
run [] fs = some fs
run (c ∷ cs) fs = elim (call c fs) [ none ↦ none | some fs' ↦ run cs fs' ]

-- The rename of a file succeeds, and the file can be opened again under its name.
abbrev pub Renames : Call → Type 0
Renames (sets name level file now) = Unit {0}
Renames (writes a c) = (a.renamed ≡ true) × ((g : ℕ) × (a.reopened ≡ some g))

abbrev pub AllRename : List Call → Type 0
AllRename [] = Unit {0}
AllRename (c ∷ cs) = Renames c × AllRename cs

abbrev IsOwnedBy : LogFiles → Type 0
IsOwnedBy fs = IsOwned fs.table fs.opened

put_line-IsOwned :
    (text : Text) (fs : LogFiles) (handle : Option ℕ) (x : ℕ)
    → handle ≡ some x
    → IsOwnedBy fs
    → 0 < count x fs.opened
    → (fs' : LogFiles) × (put_line text fs handle ≡ some fs') × IsOwnedBy fs'
unfolding put_line
put_line-IsOwned text fs handle x has v pos = (
  record fs { written = fs.written ++ ((x, text) ∷ []) },
  ap (put_line text fs) has ∙ rw (is_open-count x fs.opened pos) refl,
  v,
)

module _ (a : WriteAnswers) (c : LogCell) (fs : LogFiles) (f : LogFileObject)
    (renamed : a.renamed ≡ true) (g : ℕ) (reopened : a.reopened ≡ some g) (v : IsOwnedBy fs)
    (e : find_file c.name fs.table ≡ some f) where
  rotate-IsOwned :
      (f' : LogFileObject) × (opened : List ℕ) × (rotate a f fs.opened f.handle ≡ some (f', opened))
      × IsOwned (put_file c.name f' fs.table) opened
      × ((x : ℕ) × (f'.handle ≡ some x) × (0 < count x opened))
  unfolding rotate
  rotate-IsOwned =
      let (x, has, pos) = owned_handle c.name fs.table fs.opened f v e in
      elim (Bool-cases (ltb (10 * 1024 * 1024) a.size)) [
        | inl big ↦
            let f' : LogFileObject = record f { handle = a.reopened; last_check_time = a.now } in
            (
              f',
              g ∷ close x fs.opened,
              ap (rotate a f fs.opened) has
                  ∙ rw (is_open-count x fs.opened pos, big, renamed)
                      (ap (λ (l : List ℕ). some (f', l ++ close x fs.opened))
                        (ap (λ (o : Option ℕ). elim o [ none ↦ [] | some y ↦ y ∷ [] ]) reopened)),
              replaced-IsOwned c.name fs.table fs.opened f f' x g v e has reopened,
              (g, reopened, rw (one_self g) (omega arith)),
            )
        | inr small ↦ (
          f,
          fs.opened,
          ap (rotate a f fs.opened) has ∙ rw (is_open-count x fs.opened pos, small) refl,
          kept-IsOwned c.name fs.table fs.opened f x v e has,
          (x, has, pos),
        )
      ]

  test :
      ltb f.log_level c.log_level ≡ false
      → is_due a.now f ≡ false
      → write_found a c fs f ≡ put_line (line_text a c) fs f.handle
  unfolding write_found
  test b d = rw (write_found, b, d) refl

  turns :
      {f' : LogFileObject} {opened : List ℕ}
      → ltb f.log_level c.log_level ≡ false
      → is_due a.now f ≡ true
      → rotate a f fs.opened f.handle ≡ some (f', opened)
      → write_found a c fs f
        ≡ put_line
            (line_text a c)
            (record fs { table = put_file c.name f' fs.table; opened = opened })
            f'.handle
  unfolding write_found
  turns b d turned = rw (write_found, b, d, turned) refl

  write_found-IsOwned : (fs' : LogFiles) × (write_found a c fs f ≡ some fs') × IsOwnedBy fs'
  unfolding write_found
  write_found-IsOwned =
      let (x, has, pos) = owned_handle c.name fs.table fs.opened f v e in
      elim (Bool-cases (ltb f.log_level c.log_level)) [
        | inl b ↦ (fs, rw (write_found, b) refl, v)
        | inr b ↦ elim (Bool-cases (is_due a.now f)) [
          | inr d ↦
              let (fs', ran, v') = put_line-IsOwned (line_text a c) fs f.handle x has v pos in
              (fs', test b d ∙ ran, v')
          | inl d ↦
              let (f', opened, turned, v', (y, has', pos')) = rotate-IsOwned in
              let (fs', ran, v'') =
                put_line-IsOwned (line_text a c)
                  (record fs { table = put_file c.name f' fs.table; opened = opened }) f'.handle y
                  has' v' pos' in
              (fs', turns b d turned ∙ ran, v'')
        ]
      ]

call-IsOwned :
    (c : Call) (fs : LogFiles)
    → Renames c
    → IsOwnedBy fs
    → (fs' : LogFiles) × (call c fs ≡ some fs') × IsOwnedBy fs'
unfolding call set_log_level write_cell
call-IsOwned (sets name level none now) fs h v = (fs, refl, v)
call-IsOwned (sets name level (some x) now) fs h v = (
  (set_log_level name level (some x) now fs).1,
  refl,
  insert_file-IsOwned name (record { handle = some x; log_level = level; last_check_time = now }) x
      fs.table fs.opened refl v,
)
call-IsOwned (writes a c) fs (renamed, (g, reopened)) v =
    elim (Option-cases (find_file c.name fs.table)) [
      | inl e ↦ (fs, rw (call, write_cell, e) refl, v)
      | inr (f, e) ↦
          let (fs', ran, v') = write_found-IsOwned a c fs f renamed g reopened v e in
          (fs', rw (call, write_cell, e, ran) refl, v')
    ]

run-IsOwned :
    (cs : List Call) (fs : LogFiles)
    → AllRename cs
    → IsOwnedBy fs
    → (fs' : LogFiles) × (run cs fs ≡ some fs') × IsOwnedBy fs'
unfolding run
run-IsOwned [] fs h v = (fs, refl, v)
run-IsOwned (c ∷ cs) fs h v =
    let (fs₁, ran, v₁) = call-IsOwned c fs h.0 v in
    let (fs₂, ran₂, v₂) = run-IsOwned cs fs₁ h.1 v₁ in (fs₂, rw (run, ran) ran₂, v₂)

-- UnInit closes what the table holds, each FILE as often as it is there.
close_all-runs :
    (table : Table) (opened : List ℕ)
    → IsOwned table opened
    → (left : List ℕ) × (close_all table opened ≡ some left)
unfolding close_all
close_all-runs [] opened v = (opened, refl)
close_all-runs ((n, f) ∷ rest) opened v =
    let (x, has) = v.all_some.0 in
    let once : holds x f ≡ 1 = rw has (one_self x) in
    let enough = v.open_enough x in
    let pos : 0 < count x opened = omega arith in
    let (left, ran) = close_all-runs rest (close x opened) (record {
      all_some = v.all_some.1;
      open_enough = λ h.
          let enough' = v.open_enough h in
          let closed = count-close h x opened in
          let held : holds h f ≡ one x h = rw has refl in omega arith;
    }) in
    let closes : close_one f.handle opened ≡ some (close x opened) =
      ap (λ o. close_one o opened) has ∙ rw (is_open-count x opened pos) refl in
    (left, rw (close_all, closes) ran)

no_files-IsOwned : IsOwned [] []
no_files-IsOwned = record { all_some = tt; open_enough = λ h. omega arith }

-- From an empty table, for any calls of SetLogLevel and _write, for new names and known ones, when every
-- rename of a file succeeds and the file can then be opened again: no call uses a FILE that is null or
-- closed, and neither does the UnInit after them.
pub run-uninit :
    (cs : List Call)
    → AllRename cs
    → (fs : LogFiles) × (fs' : LogFiles) × (run cs no_files ≡ some fs) × (uninit fs ≡ some fs')
unfolding uninit
run-uninit cs h =
    let (fs, ran, v) = run-IsOwned cs no_files h no_files-IsOwned in
    let (left, closes) = close_all-runs fs.table fs.opened v in
    (fs, record fs { table = []; opened = left }, ran, rw (uninit, closes) refl)

module _ (a : WriteAnswers) (c : LogCell) (fs : LogFiles) (f : LogFileObject) (x : ℕ)
    (has : f.handle ≡ some x) (once : count x fs.opened ≡ 1) where
  -- The object that is left when a file is not renamed
  stale : LogFileObject
  stale = record f { last_check_time = a.now }
