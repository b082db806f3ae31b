-- ===== src/Heaps/Cursor.antt =====
-- The cursor of `HM_HH_zip` of runtime/gc/hierarchical-heap.c, and the two paths that it merges.
use mathlib.Core.List.{map}
use mpl.Base.{
  ℕ, zero, suc, ◌≡◌, ◌≢◌, refl, sym, ap, ◌∙◌, subst, Option, none, some, List, [], ◌∷◌, ◌==◌, ◌||◌,
  true, All,
}
use mpl.Base.Chain.{update_at, update_apart, Fresh, Distinct, Chain}
use mpl.Heaps.{World}
use mpl.Heaps.Zip.{write_cursor, zip_end, zip_from}
use mpl.Heaps.Merged.{merged, matched}
use mpl.Heaps.Steady.{Steady, HasSubs, set_next_ancestor-Steady, representatives}

abbrev pub ancestors : World → ℕ → ℕ
ancestors w a = (w.heaps a).next_ancestor

-- Where the cursor points to, and the heaps whose fields it is not in.
abbrev pub start_of : Option ℕ → World → ℕ → ℕ
start_of none w result = result
start_of (some c) w result = ancestors w c

abbrev pub NotIn : Option ℕ → List ℕ → Type 0
NotIn none xs = Unit {0}
NotIn (some c) xs = Fresh c xs

abbrev pub IsNot : Option ℕ → ℕ → Type 0
IsNot none a = Unit {0}
IsNot (some c) a = c ≢ a

-- A cursor in a heap leaves the result.
abbrev pub SameResult : Option ℕ → (before after : ℕ) → Type 0
SameResult none before after = Unit {0}
SameResult (some c) before after = after ≡ before

module _ (owner : ℕ → ℕ) (h1 h2 : ℕ) where
  pub write_cursor-Steady :
      (w : World) (cursor : Option ℕ) (hh result : ℕ)
      → Steady owner h1 h2 w (write_cursor w cursor hh result).0
  unfolding write_cursor
  write_cursor-Steady w none hh result = record {
    uf = λ a. refl;
    depth = λ a o. refl;
    for = λ a p q. refl;
    completed = λ a p q. refl;
  }
  write_cursor-Steady w (some c) hh result = set_next_ancestor-Steady owner h1 h2 w c hh

pub write_cursor-ancestors :
    (w : World) (cursor : Option ℕ) (hh result a : ℕ)
    → IsNot cursor a
    → ancestors (write_cursor w cursor hh result).0 a ≡ ancestors w a
unfolding write_cursor
write_cursor-ancestors w none hh result a ne = refl
write_cursor-ancestors w (some c) hh result a ne =
    ap (λ h. h.next_ancestor) (update_apart w.heaps c a _ ne)

pub write_cursor-start :
    (w : World) (cursor : Option ℕ) (hh result : ℕ)
    → let u = write_cursor w cursor hh result in
      (start_of cursor u.0 u.1 ≡ hh) × SameResult cursor result u.1
unfolding write_cursor
write_cursor-start w none hh result = (refl, tt)
write_cursor-start w (some c) hh result =
    (ap (λ h. h.next_ancestor) (update_at w.heaps c c _ refl), refl)

pub write_cursor-nodes :
    (w : World) (cursor : Option ℕ) (hh result : ℕ)
    → (write_cursor w cursor hh result).0.shared ≡ w.shared
unfolding write_cursor
write_cursor-nodes w none hh result = refl
write_cursor-nodes w (some c) hh result = refl

pub NotIn-IsNot : (cursor : Option ℕ) (x : ℕ) (xs : List ℕ) → NotIn cursor (x ∷ xs) → IsNot cursor x
NotIn-IsNot none x xs n = tt
NotIn-IsNot (some c) x xs n = n.0

pub NotIn-rest : (cursor : Option ℕ) (x : ℕ) (xs : List ℕ) → NotIn cursor (x ∷ xs) → NotIn cursor xs
NotIn-rest none x xs n = tt
NotIn-rest (some c) x xs n = n.1

-- A path is as it was where only the cursor's heap is written.
pub path-write :
    (w : World) (cursor : Option ℕ) (hh result p : ℕ) (xs : List ℕ)
    → NotIn cursor xs
    → Chain (ancestors w) p xs
    → Chain (ancestors (write_cursor w cursor hh result).0) p xs
path-write w cursor hh result p [] n c = c
path-write w cursor hh result p (x ∷ xs) n c = (
  c.0,
  c.1,
  subst (λ q. Chain (ancestors (write_cursor w cursor hh result).0) q xs)
      (sym (write_cursor-ancestors w cursor hh result x (NotIn-IsNot cursor x xs n)))
      (path-write w cursor hh result (ancestors w x) xs (NotIn-rest cursor x xs n) c.2),
)

abbrev pub head_of : List ℕ → ℕ
head_of [] = 0
head_of (x ∷ xs) = x

pub Chain-head : (next : ℕ → ℕ) (p : ℕ) (xs : List ℕ) → Chain next p xs → p ≡ head_of xs
Chain-head next p [] c = c
Chain-head next p (x ∷ xs) c = c.0

pub head_of-nil : (xs : List ℕ) → xs ≡ [] → head_of xs ≡ 0
head_of-nil xs e = ap head_of e

-- From the first of its heaps on, the path leads through all of them.
abbrev pub IsPath : World → List ℕ → Type 0
IsPath w xs = Chain (ancestors w) (head_of xs) xs

pub IsPath-tail :
    (w : World) (x : ℕ) (xs : List ℕ)
    → IsPath w (x ∷ xs)
    → (ancestors w x ≡ head_of xs) × IsPath w xs
IsPath-tail w x xs c =
    let e = Chain-head (ancestors w) (ancestors w x) xs c.2 in
    (e, subst (λ p. Chain (ancestors w) p xs) e c.2)

pub Fresh-All : (x : ℕ) (xs : List ℕ) → Fresh x xs → All (λ z. z ≢ x) xs
Fresh-All x [] f = tt
Fresh-All x (y ∷ xs) f = ((λ e. f.0 (sym e)), Fresh-All x xs f.1)

pub All-both : (P Q : ℕ → Type 0) (xs : List ℕ) → All P xs → All Q xs → All (λ x. P x × Q x) xs
All-both P Q [] a b = tt
All-both P Q (x ∷ xs) a b = ((a.0, b.0), All-both P Q xs a.1 b.1)

-- Two paths of distinct heaps that stand for themselves, at the depths `d` and with distinct nodes
-- `uf`, while the cursor is in none of them.
pub record Zippable (loops : ℕ) (owner d uf : ℕ → ℕ) (w : World) (xs ys : List ℕ)
    (cursor : Option ℕ) (result : ℕ) : Type 0 where
  pub path1 : IsPath w xs
  pub path2 : IsPath w ys
  pub distinct1 : Distinct xs
  pub distinct2 : Distinct ys
  pub apart : All (λ x. Fresh x ys) xs
  pub subs1 : All (HasSubs loops owner w) xs
  pub subs2 : All (HasSubs loops owner w) ys
  pub depth : (a : ℕ) → owner a ≡ a → (w.heaps a).depth ≡ d a
  pub node : (a : ℕ) → (w.heaps a).uf_node ≡ uf a
  pub nodes : Distinct (map uf ys)
  pub at1 : NotIn cursor xs
  pub at2 : NotIn cursor ys
  pub ended : xs ≡ [] → ys ≡ [] → start_of cursor w result ≡ 0

-- What the loop leaves: the merged path from the cursor on, and the pairs united.
pub record Merges (owner d uf : ℕ → ℕ) (w v : World) (xs ys : List ℕ) (cursor : Option ℕ)
    (result found : ℕ) : Type 0 where
  pub chain : Chain (ancestors v) (start_of cursor v found) (merged d xs ys)
  pub frame : (a : ℕ) → Fresh a xs → Fresh a ys → IsNot cursor a → ancestors v a ≡ ancestors w a
  pub same : SameResult cursor result found
  pub depth : (a : ℕ) → owner a ≡ a → (v.heaps a).depth ≡ d a
  pub pairs : All (λ (x, y). representatives v (uf y) ≡ uf x) (matched d xs ys)
  pub reps : (n : ℕ) → Fresh n (map uf ys) → representatives v n ≡ representatives w n

pub start-kept :
    (cursor : Option ℕ) (u v : World) (r found x : ℕ) (xs ys : List ℕ)
    → found ≡ r
    → NotIn cursor xs
    → NotIn cursor ys
    → IsNot cursor x
    → ((a : ℕ) → Fresh a xs → Fresh a ys → x ≢ a → ancestors v a ≡ ancestors u a)
    → start_of cursor v found ≡ start_of cursor u r
start-kept none u v r found x xs ys e n1 n2 n3 frame = e
start-kept (some c) u v r found x xs ys e n1 n2 n3 frame = frame c n1 n2 (λ s. n3 (sym s))

pub SameResult-next :
    (cursor : Option ℕ) (result r found : ℕ)
    → SameResult cursor result r
    → found ≡ r
    → SameResult cursor result found
SameResult-next none result r found s e = tt
SameResult-next (some c) result r found s e = e ∙ s

pub zip_from-end :
    (loops fuel : ℕ) (w : World) (p q : ℕ) (cursor : Option ℕ) (result : ℕ)
    → (p == 0 || q == 0) ≡ true
    → zip_from loops fuel w p q cursor result ≡ some (zip_end w p q cursor result)
unfolding zip_from
zip_from-end loops zero w p q cursor result h = rw h refl
zip_from-end loops (suc fuel) w p q cursor result h = rw h refl

module _ (owner d uf : ℕ → ℕ) where
  -- A heap that is placed at the cursor, before what the later rounds leave.
  pub Merges-placed :
      (w u v : World) (x r found : ℕ) (xs ys : List ℕ) (cursor : Option ℕ) (result : ℕ)
      → x ≢ 0
      → NotIn cursor xs
      → NotIn cursor ys
      → IsNot cursor x
      → start_of cursor u r ≡ x
      → SameResult cursor result r
      → ((a : ℕ) → IsNot cursor a → ancestors u a ≡ ancestors w a)
      → Merges owner d uf u v xs ys (some x) r found
      → Chain (ancestors v) (start_of cursor v found) (x ∷ merged d xs ys)
        × ((a : ℕ)
            → x ≢ a
            → Fresh a xs
            → Fresh a ys
            → IsNot cursor a
            → ancestors v a ≡ ancestors w a)
        × SameResult cursor result found
  Merges-placed w u v x r found xs ys cursor result nz n1 n2 n3 start res before m = (
    (start-kept cursor u v r found x xs ys m.same n1 n2 n3 m.frame ∙ start, nz, m.chain),
    λ a ne f g o. m.frame a f g ne ∙ before a o,
    SameResult-next cursor result r found res m.same,
  )

  -- Where one path is at its end, the other is appended.
  pub appended :
      (w : World) (q : ℕ) (ys : List ℕ) (cursor : Option ℕ) (result : ℕ)
      → Chain (ancestors w) q ys
      → NotIn cursor ys
      → let u = write_cursor w cursor q result in
        Chain (ancestors u.0) (start_of cursor u.0 u.1) ys
        × ((a : ℕ) → IsNot cursor a → ancestors u.0 a ≡ ancestors w a)
        × SameResult cursor result u.1
        × ((n : ℕ) → representatives u.0 n ≡ representatives w n)
  appended w q ys cursor result c n =
      let start = write_cursor-start w cursor q result in
      let u = (write_cursor w cursor q result).0 in
      (
        subst (λ p. Chain (ancestors u) p ys) (sym start.0) (path-write w cursor q result q ys n c),
        write_cursor-ancestors w cursor q result,
        start.1,
        λ n. ap (λ s. (s.store.nodes n).representative) (write_cursor-nodes w cursor q result),
      )
