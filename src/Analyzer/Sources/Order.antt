-- ===== src/Analyzer/Sources/Order.antt =====
-- The hash of several sources does not depend on their order.
use yee_z_privacy_computing.Base.{
  ℕ, ◌≡◌, refl, sym, ap, ◌∙◌, inl, inr, Bool, true, false, some, List, [], ◌∷◌, map, arith, Bytes,
  ltb, if◌then◌else◌, length, All,
}
use mathlib.Core.Path.{subst}
use mathlib.Core.Logic.Or
use mathlib.Core.List.{Mem, Perm, mem-cons, not-mem-nil, perm-cons}
use mathlib.Core.List.Perm
use yee_z_privacy_computing.Analyzer.Ecc.{Ecc}
use yee_z_privacy_computing.Analyzer.Sources.{DataSource, data_hash, multi, join, set_data_hash}

-- `operator>` of include/ypc/common/byte/bytes.h: `memcmp` on as many bytes as the left side has. It
-- reads past the end of a shorter right side, which is undefined, here false.
unfoldable pub gt : Bytes → Bytes → Bool
gt [] v = false
gt (x ∷ xs) [] = false
gt (x ∷ xs) (y ∷ ys) = if ltb y x then true else if ltb x y then false else gt xs ys

-- What `std::sort` promises of its result for the comparison by `>`: no element is greater than one
-- before it, and the elements are those of the input.
abbrev pub IsSorted : List Bytes → Type 0
IsSorted [] = Unit
IsSorted (h ∷ rs) = All (λ k. gt k h ≡ false) rs × IsSorted rs

pub record Sorts (sort : List Bytes → List Bytes) (rs : List Bytes) : Type 0 where
  pub same_hashes : Perm (sort rs) rs
  pub sorted : IsSorted (sort rs)

gt_irrefl : (h : Bytes) → gt h h ≡ false
unfolding gt
gt_irrefl [] = refl
gt_irrefl (x ∷ xs) = ground (arith, gt_irrefl xs)

-- Strings of the same length are comparable.
gt_antisym : (h k : Bytes) → length h ≡ length k → gt h k ≡ false → gt k h ≡ false → h ≡ k
unfolding gt
gt_antisym [] [] len a b = refl
gt_antisym [] (y ∷ ys) len a b = absurd (omega arith)
gt_antisym (x ∷ xs) [] len a b = absurd (omega arith)
gt_antisym (x ∷ xs) (y ∷ ys) len a b =
    let same : x ≡ y = ground arith in
    let rest = gt_antisym xs ys (omega arith) (ground arith) (ground arith) in λ i. same i ∷ rest i

not_greater :
    (h k : Bytes) (rs : List Bytes) → All (λ k. gt k h ≡ false) rs → Mem k rs → gt k h ≡ false
not_greater h k [] below m = absurd (not-mem-nil m)
not_greater h k (r ∷ rs) below m =
    Or.elim (hlevel) (mem-cons.0 m) (λ e. ap (λ q. gt q h) e ∙ below.0) (not_greater h k rs below.1)

not_above_first :
    (h k : Bytes) (rs : List Bytes) → IsSorted (h ∷ rs) → Mem k (h ∷ rs) → gt k h ≡ false
not_above_first h k rs sorted m =
    Or.elim (hlevel) (mem-cons.0 m) (λ e. ap (λ q. gt q h) e ∙ gt_irrefl h)
      (not_greater h k rs sorted.0)

-- All have the length of a hash.
abbrev HaveSize : ℕ → List Bytes → Type 0
HaveSize size rs = (h : Bytes) → Mem h rs → length h ≡ size

-- A list has one sorted order.
sorted_unique :
    (size : ℕ) (hs ks : List Bytes)
    → HaveSize size hs
    → Perm hs ks
    → IsSorted hs
    → IsSorted ks
    → hs ≡ ks
sorted_unique size [] ks lengths p a b = Perm.nil-eq p
sorted_unique size (h ∷ hs) [] lengths p a b = Perm.eq-nil p
sorted_unique size (h ∷ hs) (k ∷ ks) lengths p a b =
    let k_in = (Perm.mem_iff p).1 (mem-cons.1 (∣ inl refl ∣₁)) in
    let h_in = (Perm.mem_iff p).0 (mem-cons.1 (∣ inl refl ∣₁)) in
    let same =
      gt_antisym h k (lengths h (mem-cons.1 (∣ inl refl ∣₁)) ∙ sym (lengths k k_in))
        (not_above_first k h ks b h_in) (not_above_first h k hs a k_in) in
    let rest =
      sorted_unique size hs ks (λ q m. lengths q (mem-cons.1 (∣ inr m ∣₁)))
        ((perm-cons k).0 (subst (λ q. Perm (q ∷ hs) (k ∷ ks)) same p)) a.1 b.1 in
    λ i. same i ∷ rest i

HaveSize-map :
    (size : ℕ) (sources : List DataSource)
    → All (λ ds. length (data_hash ds) ≡ size) sources
    → HaveSize size (map data_hash sources)
HaveSize-map size [] lengths h m = absurd (not-mem-nil m)
HaveSize-map size (ds ∷ sources) (one, more) h m =
    Or.elim (hlevel) (mem-cons.0 m) (λ e. ap length e ∙ one) (HaveSize-map size sources more h)

-- For data hashes of one length: two analyzers that have read the same sources, in whatever order they
-- were given to them, come to the same final data hash, as long as `std::sort` sorts the hashes of both.
pub set_data_hash-Perm :
    (ecc : Ecc) (sort : List Bytes → List Bytes) (size : ℕ) (sources sources' : List DataSource)
    (use_pkeys use_pkeys' : List Bytes) (before before' : Bytes)
    → Perm sources sources'
    → All (λ ds. length (data_hash ds) ≡ size) sources
    → Sorts sort (map data_hash sources)
    → Sorts sort (map data_hash sources')
    → set_data_hash ecc sort (multi sources use_pkeys) before
      ≡ set_data_hash ecc sort (multi sources' use_pkeys') before'
unfolding set_data_hash
set_data_hash-Perm ecc sort size sources sources' use_pkeys use_pkeys' before before' p lengths s
      s' =
    ap (λ rs. some (ecc.hash_256 (join rs)).1)
      (sorted_unique size (sort (map data_hash sources)) (sort (map data_hash sources'))
        (λ h m. HaveSize-map size sources lengths h ((Perm.mem_iff s.same_hashes).0 m))
        (Perm.trans s.same_hashes (Perm.trans (Perm.map data_hash p) (Perm.symm s'.same_hashes)))
        s.sorted s'.sorted)
