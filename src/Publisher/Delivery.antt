-- ===== src/Publisher/Delivery.antt =====
-- What becomes of the events of shim/publisher.go, in every interleaving of its goroutines.
use systemd_runtime.Common.{
  ℕ, ◌+◌, ◌<◌, ◌≤◌, List, [], ◌∷◌, ◌++◌, length, ◌==◌, ltb, if◌then◌else◌, ◌≡◌, refl, ap, subst,
  arith, inl, inr, Option-cases, Bool-cases,
}
use systemd_runtime.Publisher.{
  Item, Publisher, Answers, new_publisher, publish, process_item, forward_request, queue_size,
  max_requeue,
}

pub data Step : Publisher → Publisher → Type 0 where
  publishes : (p : Publisher) (event : ℕ) (a : Answers) → Step p (publish p event a).0
  wakes :
      (p : Publisher) (before after : List Item) (i : Item)
      → p.delayed ≡ before ++ (i ∷ after)
      → length p.requeue < queue_size
      → Step p (record p { delayed = before ++ after; requeue = p.requeue ++ (i ∷ []) })
  processes :
      (p : Publisher) (i : Item) (rest : List Item) (a : Answers)
      → p.requeue ≡ i ∷ rest
      → Step p (process_item (record p { requeue = rest }) i a)

pub data Reach : Publisher → Type 0 where
  start : Reach new_publisher
  next : {p q : Publisher} → Reach p → Step p q → Reach q

-- How often an event stands in a list.
abbrev pub times : ℕ → List ℕ → ℕ
times e [] = 0
times e (x ∷ xs) = (if x == e then 1 else 0) + times e xs

abbrev pub times_in : ℕ → List Item → ℕ
times_in e [] = 0
times_in e (i ∷ is) = (if i.event == e then 1 else 0) + times_in e is

times_in-append :
    (e : ℕ) (xs ys : List Item) → times_in e (xs ++ ys) ≡ times_in e xs + times_in e ys
times_in-append e [] ys = omega arith
times_in-append e (x ∷ xs) ys = omega (arith, times_in-append e xs ys)

-- Between one and six attempts were made for every item of a list.
abbrev pub Tried : List Item → Type 0
Tried [] = Unit
Tried (i ∷ is) = (0 < i.count) × (i.count ≤ 6) × Tried is

abbrev pub GivenUp : List Item → Type 0
GivenUp [] = Unit
GivenUp (i ∷ is) = (i.count ≡ 6) × GivenUp is

Tried-append : (xs ys : List Item) → Tried xs → Tried ys → Tried (xs ++ ys)
Tried-append [] ys a b = b
Tried-append (x ∷ xs) ys (lo, hi, a) b = (lo, hi, Tried-append xs ys a b)

Tried-split : (xs ys : List Item) → Tried (xs ++ ys) → Tried xs × Tried ys
Tried-split [] ys a = (tt, a)
Tried-split (x ∷ xs) ys (lo, hi, a) = let (b, c) = Tried-split xs ys a in ((lo, hi, b), c)

pub record IsKept (p : Publisher) : Type 0 where
  pub delayed : Tried p.delayed
  pub requeued : Tried p.requeue
  pub given_up : GivenUp p.dropped
  pub conserved :
      (e : ℕ)
      → times e p.published
        ≡ times e p.delivered + times_in e p.dropped + (times_in e p.delayed + times_in e p.requeue)

publish-IsKept : (p : Publisher) (event : ℕ) (a : Answers) → IsKept p → IsKept (publish p event a).0
unfolding publish
publish-IsKept p event a v = elim (Option-cases (forward_request a)) [
  | inl e ↦
      rw (e, publish)
        (record {
          delayed = v.delayed;
          requeued = v.requeued;
          given_up = v.given_up;
          conserved = λ x. omega (arith, v.conserved x);
        })
  | inr (err, e) ↦
      rw (e, publish)
        (record {
          delayed = (omega arith, omega arith, v.delayed);
          requeued = v.requeued;
          given_up = v.given_up;
          conserved = λ x. omega (arith, v.conserved x);
        })
]

wake-IsKept :
    (p : Publisher) (before after : List Item) (i : Item)
    → p.delayed ≡ before ++ (i ∷ after)
    → IsKept p
    → IsKept (record p { delayed = before ++ after; requeue = p.requeue ++ (i ∷ []) })
wake-IsKept p before after i h v =
    let (b, (lo, hi, c)) = Tried-split before (i ∷ after) (subst Tried h v.delayed) in
    record {
      delayed = Tried-append before after b c;
      requeued = Tried-append p.requeue (i ∷ []) v.requeued (lo, hi, tt);
      given_up = v.given_up;
      conserved = λ x. omega (
        arith,
        v.conserved x,
        ap (times_in x) h,
        times_in-append x before (i ∷ after),
        times_in-append x before after,
        times_in-append x p.requeue (i ∷ []),
      );
    }

process-IsKept :
    (p : Publisher) (i : Item) (rest : List Item) (a : Answers)
    → p.requeue ≡ i ∷ rest
    → IsKept p
    → IsKept (process_item (record p { requeue = rest }) i a)
unfolding process_item
process-IsKept p i rest a h v =
    let (lo, hi, others) = subst Tried h v.requeued in
    elim (Bool-cases (ltb max_requeue i.count)) [
      | inl t ↦
          rw (t, process_item)
            (record {
              delayed = v.delayed;
              requeued = others;
              given_up = (ground arith, v.given_up);
              conserved = λ x. omega (arith, v.conserved x, ap (times_in x) h);
            })
      | inr f ↦ elim (Option-cases (forward_request a)) [
        | inl e ↦
            rw (f, e, process_item)
              (record {
                delayed = v.delayed;
                requeued = others;
                given_up = v.given_up;
                conserved = λ x. omega (arith, v.conserved x, ap (times_in x) h);
              })
        | inr (err, e) ↦
            rw (f, e, process_item)
              (record {
                delayed = (omega arith, ground arith, v.delayed);
                requeued = others;
                given_up = v.given_up;
                conserved = λ x. omega (arith, v.conserved x, ap (times_in x) h);
              })
      ]
    ]

-- In every interleaving of calls of `Publish`, of the delays and of `processQueue`: each event is
-- delivered, was dropped, or is still on its way, as often in all as it was published; an event on
-- its way has been tried once to six times, and one that was dropped exactly six times.
pub Reach-IsKept : {p : Publisher} → Reach p → IsKept p
Reach-IsKept start = record { delayed = tt; requeued = tt; given_up = tt; conserved = λ e. refl }
Reach-IsKept (next r (publishes p event a)) = publish-IsKept p event a (Reach-IsKept r)
Reach-IsKept (next r (wakes p before after i h l)) = wake-IsKept p before after i h (Reach-IsKept r)
Reach-IsKept (next r (processes p i rest a h)) = process-IsKept p i rest a h (Reach-IsKept r)
