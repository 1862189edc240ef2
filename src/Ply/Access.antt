-- ===== src/Ply/Access.antt =====
-- The accessors of tom_ply.h. A pointer to an element or a property is the element or the property.
use tom_libs.Common.{
  ◌==◌, if◌then◌else◌, ==_iff, Bool-cases, ℕ, zero, suc, ◌<◌, ◌≡◌, refl, sym, ap, ◌∙◌, ◌≢◌, ◌↔◌,
  inl, inr, Bool, true, false, ◌&&◌, Option, none, some, List, [], ◌∷◌, arith,
}
use tom_libs.Ply.Types.{Property, Element, Parser}
use tom_libs.Ply.Header.Words.{str_eq}

-- `ply_element_get_property` and `ply_parser_get_element`: the walk along the links
unfoldable pub nth {ℓ} : {A : Type ℓ} → List A → ℕ → Option A
nth [] i = none
nth (x ∷ xs) zero = some x
nth (x ∷ xs) (suc i) = nth xs i

unfoldable pub get_property : Element → ℕ → Option Property
unfolding nth
get_property e i = nth e.properties i

unfoldable pub get_element : Parser → ℕ → Option Element
unfolding nth
get_element p i = nth p.elements i

-- the loop of `ply_element_get_property_by_name`
unfoldable pub find_property : List Property → List ℕ → Option Property
unfolding str_eq
find_property [] name = none
find_property (x ∷ xs) name =
    let rest = find_property xs name in if str_eq x.name name then some x else rest

-- `ply_element_get_property_by_name`
unfoldable pub get_property_by_name : Element → List ℕ → Option Property
unfolding find_property
get_property_by_name e name = find_property e.properties name

-- the loop of `ply_parser_get_element_by_name`
unfoldable pub find_element : List Element → List ℕ → Option Element
unfolding str_eq
find_element [] name = none
find_element (e ∷ es) name =
    let rest = find_element es name in if str_eq e.name name then some e else rest

-- `ply_parser_get_element_by_name`
unfoldable pub get_element_by_name : Parser → List ℕ → Option Element
unfolding find_element
get_element_by_name p name = find_element p.elements name

pub str_eq-eq : (a b : List ℕ) → (str_eq a b ≡ true) ↔ (a ≡ b)
unfolding str_eq
str_eq-eq [] [] = (λ _. refl, λ _. refl)
str_eq-eq [] (y ∷ ys) = (λ e. absurd cc, λ e. absurd cc)
str_eq-eq (x ∷ xs) [] = (λ e. absurd cc, λ e. absurd cc)
str_eq-eq (x ∷ xs) (y ∷ ys) =
    let ih = str_eq-eq xs ys in
    (
      λ h. heads (==_iff x y).0 ih.0 (both (x == y) (str_eq xs ys) h),
      λ e. rw ((==_iff x y).1 cc, ih.1 cc) refl,
    )
  where
    both : (a b : Bool) → (a && b) ≡ true → (a ≡ true) × (b ≡ true)
    both true b h = (refl, h)
    both false b h = absurd cc

    heads :
        (x == y ≡ true → x ≡ y)
        → (str_eq xs ys ≡ true → xs ≡ ys)
        → (x == y ≡ true) × (str_eq xs ys ≡ true)
        → ◌≡◌ {A = List ℕ} (x ∷ xs) (y ∷ ys)
    heads f g (p, q) = let e : x ≡ y = f p in let es : xs ≡ ys = g q in cc

-- The first element of a list with a name
pub record FirstNamed (es : List Element) (name : List ℕ) (e : Element) : Type 0 where
  pub at : ℕ
  pub here : nth es at ≡ some e
  pub named : e.name ≡ name
  pub earlier : (j : ℕ) (f : Element) → j < at → nth es j ≡ some f → f.name ≢ name

some_same {ℓ} : {A : Type ℓ} {a b : A} → some a ≡ some b → a ≡ b
some_same h = cc

not_earlier :
    (f : Element) (es : List Element) (name : List ℕ) (at : ℕ)
    → str_eq f.name name ≡ false
    → ((j : ℕ) (g : Element) → j < at → nth es j ≡ some g → g.name ≢ name)
    → (j : ℕ) (g : Element) → j < suc at
    → nth (f ∷ es) j ≡ some g
    → g.name ≢ name
unfolding nth
not_earlier f es name at n before zero g lt h same =
    let e : f.name ≡ name = ap (λ (x : Element). x.name) (some_same h) ∙ same in
    absurd (false_true (sym n ∙ (str_eq-eq f.name name).1 e))
  where
    false_true : false ≡ true → ⊥
    false_true c = cc
not_earlier f es name at n before (suc j) g lt h same = before j g (omega arith) h same

find_element-FirstNamed :
    (es : List Element) (name : List ℕ) {e : Element}
    → find_element es name ≡ some e
    → FirstNamed es name e
unfolding find_element nth
find_element-FirstNamed [] name h = absurd cc
find_element-FirstNamed (f ∷ es) name {e} h = elim (Bool-cases (str_eq f.name name)) [
  | inl y ↦ record {
    at = 0;
    here = simp y at h;
    named =
        ap (λ (g : Element). g.name) (sym (some_same (simp y at h))) ∙ (str_eq-eq f.name name).0 y;
    earlier = λ j g lt. absurd (omega arith);
  }
  | inr n ↦
      let ih = find_element-FirstNamed es name (simp n at h) in
      record {
        at = suc ih.at;
        here = ih.here;
        named = ih.named;
        earlier = not_earlier f es name ih.at n ih.earlier;
      }
]

-- What a search by name has to give: the first element with the name, or that there is none.
abbrev pub Searched : List Element → List ℕ → Option Element → Type 0
Searched es name none = (j : ℕ) (f : Element) → nth es j ≡ some f → f.name ≢ name
Searched es name (some e) = FirstNamed es name e

find_element-none :
    (es : List Element) (name : List ℕ)
    → find_element es name ≡ none
    → (j : ℕ) (g : Element) → nth es j ≡ some g
    → g.name ≢ name
unfolding find_element nth
find_element-none [] name h j g e = absurd cc
find_element-none (f ∷ es) name h j g e = elim (Bool-cases (str_eq f.name name)) [
  | inl y ↦ let found : ◌≡◌ {A = Option Element} (some f) none = simp y at h in absurd cc
  | inr n ↦
      not_earlier f es name j n (λ k d lt. find_element-none es name (simp n at h) k d) j g
        (omega arith) e
]

find_element-Searched :
    (es : List Element) (name : List ℕ) (o : Option Element)
    → find_element es name ≡ o
    → Searched es name o
find_element-Searched es name none h = find_element-none es name h
find_element-Searched es name (some e) h = find_element-FirstNamed es name h

-- `ply_parser_get_element_by_name` gives an element with that name, which `ply_parser_get_element`
-- finds at an index, no element at a lower index having the name; or it gives none, and no element
-- has the name.
pub get_element_by_name_lem :
    (p : Parser) (name : List ℕ) → Searched p.elements name (get_element_by_name p name)
unfolding get_element_by_name
get_element_by_name_lem p name =
    find_element-Searched p.elements name (find_element p.elements name) refl
