-- ===== src/Events/Bus/Delivery.antt =====
-- Who receives what: `subscribe`, `unsubscribe` and `publish` of core/events/bus.py.
use kanna_pa.Prelude.{
  ℕ, suc, ◌+◌, ◌≡◌, refl, String, Bool, true, false, ◌&&◌, List, [], ◌∷◌, ◌++◌, arith, ◌==◌, ◌=ₛ◌,
  eq_iff, if◌then◌else◌, Bool-cases, inl, inr,
}
use kanna_pa.Events.Bus.{
  Subscription, EventBus, starts_with, add_handler, subscribe, remove_first, remove_handler,
  unsubscribe, matching, receivers,
}

-- How often a handler is called.
abbrev pub count : ℕ → List ℕ → ℕ
count h [] = 0
count h (x ∷ xs) = if x == h then suc (count h xs) else count h xs

count-append : (h : ℕ) (xs ys : List ℕ) → count h (xs ++ ys) ≡ count h xs + count h ys
count-append h [] ys = omega arith
count-append h (x ∷ xs) ys = ground (arith, count-append h xs ys)

-- One more call of the new handler if the topic fits, and of no other.
abbrev pub extra : ℕ → ℕ → Bool → ℕ
extra h k fits = if (h == k) && fits then 1 else 0

extended :
    (h k : ℕ) (fits : Bool) (hs others : List ℕ)
    → count k (if fits then (hs ++ h ∷ []) ++ others else others)
      ≡ count k (if fits then hs ++ others else others) + extra h k fits
extended h k true hs others = ground (
  arith,
  count-append k (hs ++ h ∷ []) others,
  count-append k hs (h ∷ []),
  count-append k hs others,
)
extended h k false hs others = ground arith

carried :
    (k n : ℕ) (fits : Bool) (hs before after : List ℕ)
    → count k after ≡ count k before + n
    → count k (if fits then hs ++ after else after)
      ≡ count k (if fits then hs ++ before else before) + n
carried k n true hs before after e =
    omega (arith, count-append k hs after, count-append k hs before, e)
carried k n false hs before after e = e

matching-add_handler :
    (t p : String) (h k : ℕ) (subs : List Subscription)
    → count k (matching t (add_handler p h subs))
      ≡ count k (matching t subs) + extra h k (starts_with t p)
unfolding matching add_handler
matching-add_handler t p h k [] = ground arith
matching-add_handler t p h k (s ∷ rest) = elim (Bool-cases (s.topic_prefix =ₛ p)) [
  | inl same ↦
      rw (same, (eq_iff s.topic_prefix p).0 same)
        (extended h k (starts_with t p) s.handlers (matching t rest))
  | inr other ↦ rw other (
      carried k (extra h k (starts_with t p)) (starts_with t s.topic_prefix) s.handlers
        (matching t rest) (matching t (add_handler p h rest)) (matching-add_handler t p h k rest))
]

-- After a subscription every handler is called as often as before, and the new one once more for the
-- topics that start with its prefix.
pub receivers-subscribe :
    (p : String) (h k : ℕ) (bus : EventBus) (t : String)
    → count k (receivers (subscribe p h bus) t)
      ≡ count k (receivers bus t) + extra h k (starts_with t p)
unfolding receivers subscribe
receivers-subscribe p h k bus t = elim (Bool-cases (p =ₛ "")) [
  | inl all ↦
      rw (all, (eq_iff p "").0 all)
        (extended h k true bus.wildcard_handlers (matching t bus.subscriptions))
  | inr some ↦ rw some (
      carried k (extra h k (starts_with t p)) true bus.wildcard_handlers
        (matching t bus.subscriptions) (matching t (add_handler p h bus.subscriptions))
        (matching-add_handler t p h k bus.subscriptions))
]

remove_first-snoc : (h k : ℕ) (xs : List ℕ) → count k (remove_first h (xs ++ h ∷ [])) ≡ count k xs
unfolding remove_first
remove_first-snoc h k [] = ground arith
remove_first-snoc h k (x ∷ xs) =
    ground (arith, remove_first-snoc h k xs, count-append k xs (h ∷ []))

replaced :
    (k : ℕ) (fits : Bool) (xs ys others : List ℕ)
    → count k xs ≡ count k ys
    → count k (if fits then xs ++ others else others)
      ≡ count k (if fits then ys ++ others else others)
replaced k true xs ys others e =
    omega (arith, count-append k xs others, count-append k ys others, e)
replaced k false xs ys others e = refl

followed :
    (k : ℕ) (fits : Bool) (xs before after : List ℕ)
    → count k after ≡ count k before
    → count k (if fits then xs ++ after else after)
      ≡ count k (if fits then xs ++ before else before)
followed k true xs before after e =
    omega (arith, count-append k xs after, count-append k xs before, e)
followed k false xs before after e = e

alone : (h k : ℕ) (fits : Bool) → count k (if fits then remove_first h (h ∷ []) ++ [] else []) ≡ 0
unfolding remove_first
alone h k true = ground arith
alone h k false = refl

remove_handler-add_handler :
    (t p : String) (h k : ℕ) (subs : List Subscription)
    → count k (matching t (remove_handler p h (add_handler p h subs))) ≡ count k (matching t subs)
unfolding matching remove_handler add_handler
remove_handler-add_handler t p h k [] = rw ((eq_iff p p).1 refl) (alone h k (starts_with t p))
remove_handler-add_handler t p h k (s ∷ rest) = elim (Bool-cases (s.topic_prefix =ₛ p)) [
  | inl same ↦
      rw (same, same)
        (replaced k (starts_with t s.topic_prefix) (remove_first h (s.handlers ++ h ∷ []))
          s.handlers (matching t rest) (remove_first-snoc h k s.handlers))
  | inr other ↦
      rw (other, other)
        (followed k (starts_with t s.topic_prefix) s.handlers (matching t rest)
          (matching t (remove_handler p h (add_handler p h rest)))
          (remove_handler-add_handler t p h k rest))
]

-- Taking a subscription back leaves every handler called as often as before it, for every topic.
pub unsubscribe-subscribe :
    (p : String) (h k : ℕ) (bus : EventBus) (t : String)
    → count k (receivers (unsubscribe p h (subscribe p h bus)) t) ≡ count k (receivers bus t)
unfolding receivers unsubscribe subscribe
unsubscribe-subscribe p h k bus t = elim (Bool-cases (p =ₛ "")) [
  | inl all ↦ rw all (
      replaced k true (remove_first h (bus.wildcard_handlers ++ h ∷ [])) bus.wildcard_handlers
        (matching t bus.subscriptions) (remove_first-snoc h k bus.wildcard_handlers))
  | inr some ↦ rw some (
      followed k true bus.wildcard_handlers (matching t bus.subscriptions)
        (matching t (remove_handler p h (add_handler p h bus.subscriptions)))
        (remove_handler-add_handler t p h k bus.subscriptions))
]
