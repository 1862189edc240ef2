-- ===== src/Slab/Tests.antt =====
-- Runs of the allocator, and its theorems at concrete states.
use tom_libs.Slab.Avail.Find.{IsFound, find_avail-IsLowest}
use tom_libs.Slab.Avail.Laws.{no_avail-IsSized, set_bits-IsSized}
use tom_libs.Slab.Avail.Count.{used}
use tom_libs.Slab.Release.{destroy, trim}
use tom_libs.Slab.Release.Trim.{Trimmed, trim_lem}
use tom_libs.Slab.Release.Destroy.{Destroyed, destroy_lem}
use tom_libs.Slab.Reset.{reset}
use tom_libs.Slab.Reset.Laws.{Reset, reset_lem}
use tom_libs.Slab.Avail.{clr_bit, get_bit, find_avail, no_avail, set_bits}
use tom_libs.Slab.Free.{free}
use tom_libs.Slab.Free.Laws.{Freed, free_lem, free_double, free_counter}
use tom_libs.Common.{
  ◌==◌, if◌then◌else◌, ℕ, ◌+◌, ◌≤◌, ◌≡◌, refl, true, false, ◌||◌, Option, none, some, [], ◌∷◌,
  arith,
}
use tom_libs.Slab.State.{Run, ok, aborted, Footer, footer_signature, State, remove_page}
use tom_libs.Slab.History.{History, creates, gets, Promises, History-Promises}
use tom_libs.Slab.State.Lists.{count}
use tom_libs.Slab.Links.{Nodes, PageList}
use tom_libs.Slab.Links.Implements.{remove, removes, Performed, Step-Performed}
use tom_libs.Slab.Links.Refines.{Represents}
use tom_libs.Slab.Invariant.{Inv, live}
use tom_libs.Slab.Alloc.{created, create, alloc}
use tom_libs.Slab.Alloc.Create.{create-Inv}
use tom_libs.Slab.Alloc.Laws.{Allocated, alloc_lem, alloc-Inv}

-- four elements of 1008 bytes to a page
abbrev start : State
start = created 1008 none (some 7)

start-create : create true 1000 none (some 7) ≡ ok (some start)
unfolding create
start-create = refl

create-Inv_example : Inv start × (1000 ≤ start.elemsz) × ((q : ℕ) → live start q ≡ false)
create-Inv_example = create-Inv true 1000 none (some 7) start-create

alloc_example : Allocated start (some 8192) (alloc (some 8192) start)
unfolding created
alloc_example = alloc_lem (some 8192) create-Inv_example.0 (refl, refl)

abbrev result_of : Run (Option ℕ × State) → Option ℕ × State
result_of (ok r) = r
result_of _ = (none, start)

abbrev one_taken : State
one_taken = (result_of (alloc (some 8192) start)).1

abbrev three_taken : State
three_taken = (result_of (alloc none (result_of (alloc none one_taken)).1)).1

alloc_addresses :
    ((result_of (alloc (some 8192) start)).0 ≡ some 8192)
    × ((result_of (alloc none one_taken)).0 ≡ some 9200)
    × (three_taken.partial ≡ 8192 ∷ [])
unfolding alloc created find_avail clr_bit
alloc_addresses = (refl, refl, refl)

one_taken-Inv : Inv one_taken
unfolding alloc created find_avail clr_bit
one_taken-Inv = alloc-Inv {r = some 8192} (some 8192) create-Inv_example.0 (refl, refl) refl

abbrev two_taken : State
two_taken = (result_of (alloc none one_taken)).1

two_taken-Inv : Inv two_taken
unfolding alloc created find_avail clr_bit
two_taken-Inv = alloc-Inv {r = some 9200} none one_taken-Inv tt refl

free_example : Freed two_taken 9200 (free (some 9200) two_taken)
free_example =
    free_lem 9200 two_taken-Inv (unfold live alloc created find_avail clr_bit get_bit in refl)

abbrev two_footer : Footer
two_footer = record {
  signature = footer_signature;
  avail = clr_bit (clr_bit (set_bits 4 no_avail) 0) 1;
  numelems = 2;
}

free_counter_example :
    (t : State) × (g : Footer) × (free (some 9200) two_taken ≡ ok t)
    × (t.footer 8192 ≡ some g)
    × (g.numelems ≡ 2)
    × (used two_footer.avail 4 ≡ used g.avail 4 + 1)
unfolding alloc created find_avail clr_bit get_bit
free_counter_example =
    free_counter {s = two_taken} 9200 {f = two_footer} two_taken-Inv (unfold live in refl) refl
      (omega arith) (omega arith)

free_double_example : free (some 10208) two_taken ≡ aborted
unfolding alloc created find_avail clr_bit get_bit
free_double_example =
    free_double {s = two_taken} 10208 {f = two_footer} two_taken-Inv refl refl (omega arith)
      (unfold live in refl)

reset_example : Reset two_taken (reset two_taken)
reset_example = reset_lem two_taken-Inv

destroy_example : Destroyed two_taken (destroy two_taken)
destroy_example = destroy_lem two_taken-Inv

trim_example : Trimmed two_taken (trim two_taken)
trim_example = trim_lem two_taken-Inv

find_avail-IsLowest_example : IsFound (set_bits 4 no_avail) (find_avail (set_bits 4 no_avail))
find_avail-IsLowest_example =
    find_avail-IsLowest (set_bits 4 no_avail)
      (set_bits-IsSized 4 no_avail no_avail-IsSized (omega arith))

-- a list at 8 of the nodes 16 and 24
abbrev two_nodes : PageList
two_nodes = record { head = 8; count_of = 2 }

abbrev ring : Nodes
ring = record {
  next = λ b. if b == 8 then 16 else if b == 16 then 24 else if b == 24 then 8 else 0;
  prev = λ b. if b == 8 then 24 else if b == 16 then 8 else if b == 24 then 16 else 0;
}

ring-Represents : Represents two_nodes ring (16 ∷ 24 ∷ [])
unfolding count
ring-Represents = record {
  forward = (refl, (refl, refl));
  backward = (refl, (refl, refl));
  apart = λ c. ground arith;
  not_null = refl;
  counted = refl;
}

Step-Performed_example : Performed two_nodes ring (remove 16) (16 ∷ 24 ∷ []) none (24 ∷ [])
Step-Performed_example =
    Step-Performed ring-Represents (
      removes 16 (16 ∷ 24 ∷ []) (24 ∷ []) (unfold count in omega arith)
        (unfold remove_page in refl))

two_taken-History : History two_taken (λ q. (false || (q == 8192)) || (q == 9200))
unfolding alloc created find_avail clr_bit
two_taken-History =
    gets none 9200
      (gets (some 8192) 8192 (creates 1000 none (some 7) start-create) (refl, refl) refl) tt refl

History-Promises_example : Promises two_taken (λ q. (false || (q == 8192)) || (q == 9200))
History-Promises_example = History-Promises two_taken-History
