-- ===== src/Slab/State.antt =====
-- The state of a `struct slab`, of the pages that it owns, and the three page lists. A page is
-- named by its base address; a `struct slab_list` is the list of its pages in order, `count` their
-- number.
pub mod Lists
pub use tom_libs.Common.Run.{Run, ok, aborted, fault, out_of_fuel, ◌>>=◌, ◌>>◌, assert, or_fault}
use tom_libs.Common.{
  ◌==◌, if◌then◌else◌, ℕ, zero, suc, ◌+◌, ◌*◌, Bool, true, false, ◌&&◌, Option, List, [], ◌∷◌, ◌++◌,
}
use tom_libs.Slab.Avail.{Avail}

-- `struct slab_footer` less its list node
pub record Footer : Type 0 where
  pub signature : List ℕ
  pub avail : Avail
  pub numelems : ℕ

-- `SLAB_FOOTER_SIGNATURE`
abbrev pub footer_signature : List ℕ
footer_signature = b'S' ∷ b'l' ∷ b'a' ∷ b'b' ∷ b'F' ∷ b'o' ∷ b'o' ∷ b't' ∷ []

-- `memcmp(a, b, 8) == 0`
unfoldable pub same_bytes : List ℕ → List ℕ → Bool
same_bytes [] [] = true
same_bytes (x ∷ xs) (y ∷ ys) = x == y && same_bytes xs ys
same_bytes _ _ = false

-- a constructor or destructor: `slab_noop_ctor_or_dtor`, or the caller's function
pub data Hook : Type 0 where
  noop : Hook
  user : ℕ → Hook

-- What the allocator calls, in order: a hook on an element, and `SLAB_free_page`.
pub data Call : Type 0 where
  called : ℕ → ℕ → ℕ → Call
  page_freed : ℕ → Call

abbrev pub call : Hook → ℕ → ℕ → List Call
call noop p elemsz = []
call (user f) p elemsz = called f p elemsz ∷ []

-- the calls of a hook on elements 0 to `n - 1` of a page
unfoldable pub call_all : Hook → ℕ → ℕ → ℕ → List Call
call_all f b elemsz zero = []
call_all f b elemsz (suc n) = call_all f b elemsz n ++ call f (b + n * elemsz) elemsz

pub record State : Type 0 where
  pub elemsz : ℕ
  pub maxelems : ℕ
  pub ctor : Hook
  pub dtor : Hook
  pub empty : List ℕ
  pub partial : List ℕ
  pub full : List ℕ
  pub footer : ℕ → Option Footer
  pub calls : List Call

abbrev pub store : State → ℕ → Option Footer → State
store s b f = record s { footer = λ c. if c == b then f else s.footer c }

-- `slab_list_remove`; a page that is not on the list is undefined behaviour
unfoldable pub remove_page : ℕ → List ℕ → Run (List ℕ)
remove_page b [] = fault
remove_page b (x ∷ xs) = if x == b then ok xs else (do ys ← remove_page b xs; ok (x ∷ ys))

-- `slab_list_push_back`
abbrev pub push_back : ℕ → List ℕ → List ℕ
push_back b xs = xs ++ b ∷ []

-- `slab_list_is_empty`
abbrev pub is_empty : List ℕ → Bool
is_empty [] = true
is_empty (_ ∷ _) = false
