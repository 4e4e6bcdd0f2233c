-- ===== src/Buf/Manager/Reopen.antt =====
-- A removed buffer keeps its path.
use rsvim.Prelude.{
  ℕ, ◌≡◌, sym, ◌∙◌, inl, inr, true, Bool-cases, some, [], ◌∷◌, Outcome, ok, panic, Map, remove,
  KeysBelow, ◌==◌,
}
use mathlib.Core.Path.{subst}
use rsvim.Buf.Rope.{Texts}
use rsvim.Buf.Buffer.{FileTypes}
use rsvim.Buf.Manager.{
  IoResult, done, failed, FileSystem, contains_path, BuffersManager, new, new_file_buffer,
  remove_buffer,
}
use rsvim.Buf.Manager.Paths.{IsNumbered, new_file_buffer-open, new_file_buffer-Opens}

remove-KeysBelow : {V : Type 0} (k j : ℕ) (m : Map V) → KeysBelow k m → KeysBelow k (remove j m)
remove-KeysBelow k j [] h = tt
remove-KeysBelow k j ((i, v) ∷ m) (lt, h) = elim (Bool-cases (j == i)) [
  | inl e ↦ rw e (remove-KeysBelow k j m h)
  | inr e ↦ rw e (lt, remove-KeysBelow k j m h)
]

ok_fst :
    {A B : Type 0} {a a' : A} {b b' : B}
    → ◌≡◌ {A = Outcome (A × B)} (ok (a, b)) (ok (a', b'))
    → a ≡ a'
ok_fst e = cc

ok_snd :
    {A B : Type 0} {a a' : A} {b b' : B}
    → ◌≡◌ {A = Outcome (A × B)} (ok (a, b)) (ok (a', b'))
    → b ≡ b'
ok_snd e = cc

not_failed : {E A : Type 0} {a : A} {e : E} {r : IoResult E A} → r ≡ done a → r ≡ failed e → ⊥
not_failed h k = cc

module _ {x : Texts} {f : FileTypes} where
  pub new-IsNumbered : IsNumbered {x = x} {f = f} new
  unfolding new
  new-IsNumbered = record { arcs = tt; buffers = tt }

  pub remove_buffer-IsNumbered :
      (id : ℕ) (m : BuffersManager x f) → IsNumbered m → IsNumbered (remove_buffer id m).0
  unfolding remove_buffer
  remove_buffer-IsNumbered id m h = record {
    arcs = h.arcs;
    buffers = remove-KeysBelow m.next_id id m.buffers h.buffers;
  }

  -- In a manager whose buffers have numbers below the next one, a file that was opened and whose buffer was
  -- removed cannot be opened again, as long as its absolute path is the same: the manager still has the
  -- path, and `new_file_buffer` panics.
  pub reopen_panics :
      (fs : FileSystem x f) (filename abs : f.PathBuf) (m m' : BuffersManager x f) (id : ℕ)
      → fs.absolutize filename ≡ done abs
      → IsNumbered m
      → new_file_buffer fs filename m ≡ ok (m', done id)
      → new_file_buffer fs filename (remove_buffer id m').0 ≡ panic
  unfolding remove_buffer
  reopen_panics fs filename abs m m' id absolute h e =
      elim (Bool-cases (contains_path f (some abs) m.buffers_by_path)) [
        | inl known ↦
            absurd (never (sym (new_file_buffer-open fs filename m abs absolute known) ∙ e))
        | inr free ↦
            let v = new_file_buffer-Opens fs filename m abs absolute h free in
            let same = sym v.returns ∙ e in
            elim v.effect [
              | inl (err, er, em) ↦ absurd (not_failed (ok_snd same) er)
              | inr (id', er, o) ↦
                  new_file_buffer-open fs filename (remove_buffer id m').0 abs absolute (
                    subst (λ n. contains_path f (some abs) n.buffers_by_path ≡ true) (ok_fst same)
                      o.open_path)
            ]
      ]
    where
      never : {A : Type 0} {a : A} → panic ≡ ok a → ⊥
      never e = cc
