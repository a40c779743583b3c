-- ===== src/Model/Parts.antt =====
-- The actions that read the whole text or a part of it: `SplitOff`, `IntoString` and `Retain`.
use smartstring.Model.Texts.{length-control_retain}
use smartstring.Utf8.{encode, is_char_boundary, IsUtf8}
use smartstring.Model.Answers.{shrunk-IsTight, answered, Agrees}
use smartstring.Boxed.Grow.{request_limit}
use smartstring.Smart.{is_inline, SmartString, Mode}
use smartstring.Prelude.{
  length-take, ℕ, ◌<◌, ◌≡◌, ◌∙◌, refl, sym, ap, inl, inr, List, [], ◌∷◌, some, arith, Bool-cases,
  length, take, drop,
}
use smartstring.Heap.{Heap, Allocator}
use smartstring.Heap.Succeeds
use smartstring.Heap.Succeeds.{always, map_returns, Succeeds, returns, gives_up}
use smartstring.Model.{
  split_off, into_string, retain, control, control_retain, contains, perform, perform_split_off,
  perform_into_string, perform_retain, nothing, bytes,
}
use smartstring.Drain.Chars as Chars
use smartstring.Ops.Retain.Scan.{scan, kept_first, finished}
use smartstring.Boxed.Strings.{drop_string_lem}
use smartstring.Smart.Methods
use smartstring.Smart.Convert.Laws.{deref-Rep, clone-Rep, into_string-IsString}
use smartstring.Smart.Macros.Shrink.{drop-Rep}
use smartstring.Smart.Rep.{Rep, Rep-swap}
use smartstring.Smart.Methods.SplitsOff.{split_off-Both, split_off-panics}
use smartstring.Smart.Methods.Retains.{retain-Post}

-- The filter answers for every character.
scan-control_retain :
    (filter cs : List ℕ)
    → scan (λ ch e. some (contains filter ch, e)) cs tt ≡ finished (control_retain filter cs) tt
unfolding scan kept_first control_retain
scan-control_retain filter [] = refl
scan-control_retain filter (c ∷ cs) = ground (arith, scan-control_retain filter cs)

module _ (a : Allocator) (rest : Heap) (m : Mode) (s : SmartString) (h : Heap) (text : List ℕ)
    (r : Rep rest text s h) where
  pub Agrees-split_off :
      (index : ℕ)
      → length text < request_limit
      → Agrees a rest m s h text
          (control (split_off index) text)
          (perform a m (split_off index) (s, h))
  unfolding control perform perform_split_off
  Agrees-split_off index lim = elim (Bool-cases (is_char_boundary text index)) [
    | inr off ↦ rw (off, split_off-panics a m rest text s h r index off) refl
    | inl b ↦ rw b (
        Succeeds.bind (split_off-Both a m rest text s h r index b (omega arith)) λ tail p both.
          let (mid, rep, older) =
            Rep-swap rest (drop index text) (take index text) tail p.0 both.mid p.1 both.rep_tail
              both.rep in
          rw (drop-Rep a mid (drop index text) tail p.1 older) (
            returns (record {
              result = ap bytes (deref-Rep both.rep_tail);
              rep = rep;
              tight = λ t eager.
                  both.place
                  ∙ shrunk-IsTight m (is_inline s) text (take index text)
                      (omega (arith, length-take index text)) t eager;
            })))
  ]

  pub Agrees-into_string :
      Agrees a rest m s h text (control into_string text) (perform a m into_string (s, h))
  unfolding control perform perform_into_string
  Agrees-into_string =
      map_returns {P = λ x h'. (x ≡ bytes text) × Rep rest text s h'} (λ h'. (s, h'))
        (Succeeds.bind (clone-Rep a rest text s h r) λ c h' (copy, _, _).
          Succeeds.bind (into_string-IsString a h text c h' copy) λ string h2 (w, _).
            rw (drop_string_lem a h string h2 w.owned) (returns (ap bytes w.text_eq, r)))
        λ x h' (same, rep). record { result = same; rep = rep; tight = λ t. t }

  pub Agrees-retain :
      IsUtf8 text
      → (filter : List ℕ)
      → Agrees a rest m s h text (control (retain filter) text) (perform a m (retain filter) (s, h))
  unfolding control perform perform_retain
  Agrees-retain u filter =
      let kept = control_retain filter u.chars in
      let same : Chars.collect text ≡ u.chars =
        ap Chars.collect (sym u.encoded) ∙ Chars.collect-encode u.chars u.scalars in
      rw same (
        answered a rest m s h text (encode kept) tt (λ _. nothing)
          (Methods.retain a m (λ ch e. some (contains filter ch, e)) tt)
          (shrunk-IsTight m (is_inline s) text (encode kept)
            (omega (arith, length-control_retain filter u.chars, ap length u.encoded)))
          (always (
            retain-Post a m _ tt rest text u.chars u.scalars u.encoded s h r kept tt
              (scan-control_retain filter u.chars))))
