-- ===== src/Cli/Order/Invariant.antt =====
-- What the search of `orderedStacks` keeps: the names still to be seen, and the order so far.
use mksrv.Common.{
  ℕ, ◌≤◌, ◌<◌, ◌≡◌, refl, sym, ◌∙◌, subst, true, false, ◌||◌, not, List, [], ◌∷◌, ◌++◌, arith,
  length, Text, text_eq_refl, text_eq_iff, contains, count_if, append_assoc, append-nil,
}
use mksrv.Model.Types.{Stack}
use mksrv.Workspace.Cycles.{depends_on}
use mksrv.Workspace.Cycles.Graph.{Below}
use mksrv.Cli.Order.{Walk, see, push}

pub contains-append :
    (xs ys : List Text) (n : Text) → contains (xs ++ ys) n ≡ (contains xs n || contains ys n)
unfolding contains
contains-append [] ys n = refl
contains-append (x ∷ xs) ys n = ground (arith, contains-append xs ys n)

-- How many of the names are still to be seen.
pub unseen : Walk → List Text → ℕ
unseen walk names = count_if (λ n. not (walk.seen n)) names

pub unseen_le_length : (walk : Walk) (names : List Text) → unseen walk names ≤ length names
unfolding unseen count_if
unseen_le_length walk [] = omega arith
unseen_le_length walk (n ∷ names) = ground (arith, unseen_le_length walk names)

pub unseen-see_le :
    (name : Text) (walk : Walk) (names : List Text)
    → unseen (see name walk) names ≤ unseen walk names
unfolding unseen see count_if
unseen-see_le name walk [] = omega arith
unseen-see_le name walk (n ∷ names) = ground (arith, unseen-see_le name walk names)

pub unseen-see_lt :
    (name : Text) (walk : Walk) (names : List Text)
    → walk.seen name ≡ false
    → contains names name ≡ true
    → unseen (see name walk) names < unseen walk names
unfolding unseen see count_if contains
unseen-see_lt name walk [] w h = ground arith
unseen-see_lt name walk (n ∷ names) w h = ground (
  arith,
  text_eq_iff n name,
  text_eq_refl name,
  unseen-see_lt name walk names w,
  unseen-see_le name walk names,
)

pub unseen-push :
    (name : Text) (walk : Walk) (names : List Text)
    → unseen (push name walk) names ≡ unseen walk names
unfolding unseen push
unseen-push name walk names = refl

module _ (catalog : List (Text × Stack)) (assigned : List Text) where
  -- `name` may come after the names of `before`: it is a new one, and those of its dependencies that
  -- are assigned are among them.
  pub record IsNext (before : List Text) (name : Text) : Type 0 where
    pub fresh : contains before name ≡ false
    pub ready :
        (d : Text)
        → contains (depends_on catalog name) d ≡ true
        → contains assigned d ≡ true
        → contains before d ≡ true

  -- Every name may come after those before it.
  unfoldable pub IsOrdered : List Text → List Text → Type 0
  IsOrdered before [] = Unit
  IsOrdered before (name ∷ rest) = IsNext before name × IsOrdered (before ++ name ∷ []) rest

  pub IsOrdered-push :
      (before names : List Text) (name : Text)
      → IsOrdered before names
      → IsNext (before ++ names) name
      → IsOrdered before (names ++ name ∷ [])
  unfolding IsOrdered
  IsOrdered-push before [] name h next = (rw append-nil at next, tt)
  IsOrdered-push before (n ∷ names) name (first, h) next = (
    first,
    IsOrdered-push (before ++ n ∷ []) names name h
        (subst (λ l. IsNext l name) (sym (append_assoc before (n ∷ []) names)) next),
  )

  pub record Inv (walk : Walk) : Type 0 where
    pub ordered : IsOrdered [] walk.order
    pub seen_order : (n : Text) → contains walk.order n ≡ true → walk.seen n ≡ true
    pub wanted_order : (n : Text) → contains walk.order n ≡ true → contains assigned n ≡ true

  -- The visit of `n` has begun and is not over.
  pub record IsOpen (walk : Walk) (n : Text) : Type 0 where
    pub begun : walk.seen n ≡ true
    pub open_still : contains walk.order n ≡ false

  -- From `before` to `after`: what was seen is neither forgotten nor put into the order, and no visit
  -- is left open.
  pub record Extends (before after : Walk) : Type 0 where
    pub keeps_seen : (n : Text) → before.seen n ≡ true → after.seen n ≡ true
    pub keeps_order :
        (n : Text) → before.seen n ≡ true → contains after.order n ≡ contains before.order n
    pub closed : (n : Text) → IsOpen after n → IsOpen before n
    pub fewer : unseen after assigned ≤ unseen before assigned

  pub Extends-refl : (w : Walk) → Extends w w
  Extends-refl w = record {
    keeps_seen = λ n h. h;
    keeps_order = λ n h. refl;
    closed = λ n h. h;
    fewer = omega arith;
  }

  pub Extends-trans : {u v w : Walk} → Extends u v → Extends v w → Extends u w
  Extends-trans p q = record {
    keeps_seen = λ n h. q.keeps_seen n (p.keeps_seen n h);
    keeps_order = λ n h. q.keeps_order n (p.keeps_seen n h) ∙ p.keeps_order n h;
    closed = λ n h. p.closed n (q.closed n h);
    fewer = omega (arith, p.fewer, q.fewer);
  }

  -- After a visit of the names: those that are assigned are in the order.
  pub record Ends (names : List Text) (before after : Walk) : Type 0 where
    pub inv : Inv after
    pub extends : Extends before after
    pub done :
        (n : Text)
        → contains names n ≡ true
        → contains assigned n ≡ true
        → contains after.order n ≡ true

  -- Every visit that is open is that of a stack which depends on `name`.
  abbrev pub IsUnder : Text → Walk → Type 0
  IsUnder name walk = (g : Text) → IsOpen walk g → Below catalog name g

  abbrev pub Searches : ℕ → (Text → Walk → Walk) → Type 0
  Searches bound go =
      (name : Text) (walk : Walk)
      → unseen walk assigned < bound
      → IsUnder name walk
      → Inv walk
      → Ends (name ∷ []) walk (go name walk)
