-- ===== src/Smart/Proptest.antt =====
-- proptest.rs: the strategy for a regular expression, with the library as a parameter.
use smartstring.Prelude.{ℕ, ◌≤◌, ◌<◌, ◌≡◌, ◌⊎◌, refl, inl, inr, false, not, List, isize_max, length}
use smartstring.Run.{M, assert, ◌>>=◌, ◌>>◌}
use smartstring.Heap.{Heap, Allocator}
use smartstring.Heap.Succeeds
use smartstring.Heap.Succeeds.{Succeeds, returns}
use smartstring.Smart.Macros.{drop}
use smartstring.Smart.Macros.Shrink.{drop-Rep}
use smartstring.Boxed.{StdString}
use smartstring.Smart.{SmartString}
use smartstring.Smart.Convert.{from_string, is_empty}
use smartstring.Smart.Convert.Laws.{from_string-Made, is_empty-Rep}

-- What the source uses of proptest: `Strategy`, `prop_map`, `boxed` and `string::string_regex`, and
-- which values a strategy may draw.
pub record Proptest (E : Type 0) : Type 1 where
  pub Strategy : Type 0 → Type 0
  pub prop_map : {A B : Type 0} → (A → B) → Strategy A → Strategy B
  pub boxed : {A : Type 0} → Strategy A → Strategy A
  pub string_regex : List ℕ → E ⊎ Strategy StdString
  pub Draws : {A : Type 0} → Strategy A → A → Type 0
  pub prop_map-Draws :
      {A B : Type 0} (f : A → B) (g : Strategy A) (b : B)
      → Draws (prop_map f g) b
      → (x : A) × Draws g x × (b ≡ f x)
  pub boxed-Draws : {A : Type 0} (g : Strategy A) (x : A) → Draws (boxed g) x → Draws g x

-- `Result::map`
map_result : {E A B : Type 0} → (A → B) → E ⊎ A → E ⊎ B
map_result f (inl e) = inl e
map_result f (inr x) = inr (f x)

map_result-inr :
    {E A B : Type 0} (f : A → B) (r : E ⊎ A) (y : B)
    → map_result f r ≡ inr y
    → (x : A) × (r ≡ inr x) × (f x ≡ y)
unfolding map_result
map_result-inr f (inl e) y h = cc h
map_result-inr f (inr x) y h = (x, refl, cc h)

module _ (a : Allocator) {E : Type 0} (p : Proptest E) where
  -- A string is made when the strategy draws.
  pub string_regex : List ℕ → E ⊎ p.Strategy (M Heap SmartString)
  unfolding map_result
  string_regex regex =
      map_result (λ g. p.boxed (p.prop_map (from_string a) g)) (p.string_regex regex)

  -- The test of the module, on what the strategy draws
  pub strategy : M Heap SmartString → M Heap (Unit {0})
  strategy draw = do string ← draw; assert (not (is_empty string)); drop a string

  -- What the strategy draws is made of a `String` that the library's strategy draws.
  string_regex-Draws :
      (regex : List ℕ) (g : p.Strategy (M Heap SmartString)) (draw : M Heap SmartString)
      → string_regex regex ≡ inr g
      → p.Draws g draw
      → (f : p.Strategy StdString) × (string : StdString) × (p.string_regex regex ≡ inr f)
        × p.Draws f string
        × (draw ≡ from_string a string)
  unfolding string_regex
  string_regex-Draws regex g draw e drawn =
      let made : p.Strategy StdString → p.Strategy (M Heap SmartString) =
        λ g. p.boxed (p.prop_map (from_string a) g) in
      let (f, same, wrapped) = map_result-inr made (p.string_regex regex) g e in
      let (string, source, called) =
        p.prop_map-Draws (from_string a) f draw
          (p.boxed-Draws (p.prop_map (from_string a) f) draw (rw (← wrapped) at drawn)) in
      (f, string, same, source, called)

  strategy-frees :
      (rest : Heap) (string : StdString)
      → 0 < length string.text
      → length string.text ≤ string.capacity
      → string.capacity < isize_max
      → Succeeds a (λ _ h. h ≡ rest) (strategy (from_string a string) rest)
  unfolding strategy
  strategy-frees rest string some_text fits lim =
      Succeeds.bind (from_string-Made a rest string fits lim) λ s h (rep, _).
        let nonempty : is_empty s ≡ false = is_empty-Rep rep some_text in
        rw (nonempty, drop-Rep a rest string.text s h rep) (returns refl)
