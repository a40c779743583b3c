-- ===== src/Smart/Serde.antt =====
-- serde.rs and arbitrary.rs: strings that are made by another library, whose part is a parameter.
use smartstring.Prelude.{[], ◌∷◌, isize_max, ℕ, ◌≤◌, ◌<◌, ◌≡◌, ◌⊎◌, refl, inl, inr, List, length}
use smartstring.Run.{M, pure, ◌>>=◌}
use smartstring.Heap.{Heap, Allocator}
use smartstring.Heap.Succeeds
use smartstring.Heap.Succeeds.{Succeeds, returns, gives_up}
use smartstring.Smart.{SmartString}
use smartstring.Smart.Convert.{deref, from_string, from_str}
use smartstring.Smart.Convert.Laws.{deref-Rep, from_string-Made, from_str-Made, Made}
use smartstring.Smart.Rep.{Rep}
use smartstring.Boxed.{StdString}

-- `Serialize`: `serialize_str` is the serializer's.
pub serialize : {O : Type 0} → (List ℕ → O) → SmartString → O
serialize serialize_str s = serialize_str (deref s)

-- What a deserializer finds: it calls one of the visitor's methods, or has an error of its own.
pub data Visit (E : Type 0) : Type 0 where
  visits_string : StdString → Visit E
  visits_str : List ℕ → Visit E
  fails : E → Visit E

-- `String::arbitrary` and its kind: an error, or a `String`.
pub data Source (E : Type 0) : Type 0 where
  made : StdString → Source E
  refused : E → Source E

-- `expecting`: "a string"
pub expecting : {R : Type 0} → (List ℕ → R) → R
expecting write_str = write_str (0x61 ∷ 0x20 ∷ 0x73 ∷ 0x74 ∷ 0x72 ∷ 0x69 ∷ 0x6e ∷ 0x67 ∷ [])

module _ (a : Allocator) where
  pub visit_string : StdString → M Heap SmartString
  visit_string v = from_string a v

  pub visit_str : List ℕ → M Heap SmartString
  visit_str v = from_str a v

  -- `Deserialize`, with what `deserialize_string` does with the visitor
  pub deserialize : {E : Type 0} → Visit E → M Heap (E ⊎ SmartString)
  unfolding visit_string visit_str
  deserialize (visits_string v) = do s ← visit_string v; pure (inr s)
  deserialize (visits_str v) = do s ← visit_str v; pure (inr s)
  deserialize (fails e) = pure (inl e)

  -- `Arbitrary`
  pub arbitrary : {E : Type 0} → Source E → M Heap (E ⊎ SmartString)
  arbitrary (made v) = do s ← from_string a v; pure (inr s)
  arbitrary (refused e) = pure (inl e)

  -- `arbitrary_take_rest`, with what `String::arbitrary_take_rest` answers
  pub arbitrary_take_rest : {E : Type 0} → Source E → M Heap (E ⊎ SmartString)
  arbitrary_take_rest (made v) = do s ← from_string a v; pure (inr s)
  arbitrary_take_rest (refused e) = pure (inl e)

-- `Arbitrary::size_hint`, which is that of `String`
pub size_hint : {R : Type 0} → (ℕ → R) → ℕ → R
size_hint string_size_hint depth = string_size_hint depth

-- The visitor is given the text, as a `str` or in a `String`.
pub data Reads {E : Type 0} (text : List ℕ) : Visit E → Type 0 where
  as_str : Reads text (visits_str text)
  as_string :
      (v : StdString)
      → v.text ≡ text
      → length v.text ≤ v.capacity
      → v.capacity < isize_max
      → Reads text (visits_string v)

module _ (a : Allocator) {E O : Type 0} (serialize_str : List ℕ → O)
    (deserialize_string : O → Visit E)
    (reads : (text : List ℕ) → Reads text (deserialize_string (serialize_str text))) where
  visited :
      (rest : Heap) (text : List ℕ) (v : Visit E)
      → length text < isize_max
      → Reads text v
      → Succeeds a
          (λ r h. (t : SmartString) × (r ≡ inr t) × Made a rest text t h)
          (deserialize a v rest)
  unfolding deserialize visit_string visit_str
  visited rest text _ lim as_str =
      Succeeds.bind (from_str-Made a rest text lim) λ t h m. returns (t, refl, m)
  visited rest text _ lim (as_string v e fits room) =
      Succeeds.bind (from_string-Made a rest v fits room) λ t h m. returns (t, refl, rw (← e) m)

  -- With a serializer and a deserializer that hand the visitor any text that was serialized, as a
  -- str or in a String that has room for it and a capacity below 2^63 - 1: a string of either
  -- form, whose text is below 2^63 - 1 bytes, that is serialized and deserialized gives, unless
  -- the allocator answers null, a string with the same text, which is inline exactly when it fits.
  pub deserialize-serialize :
      (rest : Heap) (text : List ℕ) (s : SmartString) (h : Heap)
      → Rep rest text s h
      → length text < isize_max
      → Succeeds a
          (λ r h'. (t : SmartString) × (r ≡ inr t) × Made a h text t h')
          (deserialize a (deserialize_string (serialize serialize_str s)) h)
  unfolding serialize
  deserialize-serialize rest text s h r lim =
      rw (deref-Rep r) (visited h text (deserialize_string (serialize_str text)) lim (reads text))
