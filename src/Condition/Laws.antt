-- ===== src/Condition/Laws.antt =====
-- Laws of `All`, `Any` and `Not` outside of a trace (condition.go), their side effects, their errors
-- and their panics included.
use rulite.Base.{
  List, [], ◌∷◌, map, ◌≡◌, refl, sym, ap, ◌∙◌, Bool, true, false, not, Option, none, some,
}
use rulite.Errors.{Err}
use rulite.World.{
  World, Call, returned, panicked, Context, Pointer, Eff, Condition, ConditionKind, ◌>>=◌, pure,
  condition_all, condition_any, condition_not,
}
use rulite.Condition.{decide_child, call_child, check_children, all_of, any_of, not_of, combine}

module _ {Host : Type 0} where
  abbrev unless_decided :
      Option (Bool × Option Err) → Eff Host (Bool × Option Err) → Eff Host (Bool × Option Err)
  unless_decided (some result) rest = pure result
  unless_decided none rest = rest

  -- What follows a child's answer.
  abbrev after_child :
      ConditionKind
      → List (Option (Condition Host))
      → Context Host
      → Pointer
      → Call Host (Bool × Option Err)
      → Call Host (Bool × Option Err)
  after_child kind cs ctx input (returned answer w) =
      unless_decided (decide_child kind answer) (check_children kind cs ctx input) w
  after_child kind cs ctx input (panicked p w) = panicked p w

  check_children-cons :
      (kind : ConditionKind) (c : Option (Condition Host)) (cs : List (Option (Condition Host)))
      (ctx : Context Host) (input : Pointer) (w : World Host)
      → check_children kind (c ∷ cs) ctx input w
        ≡ after_child kind cs ctx input (call_child c ctx input w)
  unfolding check_children
  check_children-cons kind c cs ctx input w = go (call_child c ctx input w)
    where
      decided :
          (o : Option (Bool × Option Err)) (v : World Host)
          → (elim o as (λ _. Eff Host (Bool × Option Err)) [
            | some result ↦ pure result
            | none ↦ check_children kind cs ctx input
          ])
              v
            ≡ unless_decided o (check_children kind cs ctx input) v
      decided (some result) v = refl
      decided none v = refl

      go :
          (a : Call Host (Bool × Option Err))
          → ((λ (v : World Host). a) >>= λ answer. elim (decide_child kind answer) [
            | some result ↦ pure result
            | none ↦ check_children kind cs ctx input
          ])
              w
            ≡ after_child kind cs ctx input a
      go (returned answer w') = decided (decide_child kind answer) w'
      go (panicked p w') = refl

  -- What `Not` makes of an answer.
  abbrev negated : Call Host (Bool × Option Err) → Call Host (Bool × Option Err)
  negated (returned (matched, some e) w) = returned (false, some e) w
  negated (returned (matched, none) w) = returned (not matched, none) w
  negated (panicked p w) = panicked p w

  after_child-negated :
      (ctx : Context Host) (input : Pointer) (a : Call Host (Bool × Option Err))
      → after_child condition_not [] ctx input a ≡ negated a
  after_child-negated ctx input (returned (matched, some e) w) = refl
  after_child-negated ctx input (returned (matched, none) w) = refl
  after_child-negated ctx input (panicked p w) = refl

  not_of-negated :
      (c : Option (Condition Host)) (ctx : Context Host) (input : Pointer) (w : World Host)
      → ctx.recorder ≡ none
      → not_of c ctx input w ≡ negated (call_child c ctx input w)
  unfolding not_of
  not_of-negated c ctx input w untraced =
      ap (λ r. combine r condition_not (c ∷ []) ctx input w) untraced
      ∙ check_children-cons condition_not c [] ctx input w
      ∙ after_child-negated ctx input (call_child c ctx input w)

  abbrev denied : Option (Condition Host) → Option (Condition Host)
  denied c = some (not_of c)

  after_child-denied :
      (cs : List (Option (Condition Host))) (ctx : Context Host) (input : Pointer)
      (a : Call Host (Bool × Option Err))
      → ((w : World Host)
          → negated (check_children condition_all cs ctx input w)
            ≡ check_children condition_any (map denied cs) ctx input w)
      → negated (after_child condition_all cs ctx input a)
        ≡ after_child condition_any (map denied cs) ctx input (negated a)
  after_child-denied cs ctx input (returned (matched, some e) w) later = refl
  after_child-denied cs ctx input (returned (true, none) w) later = later w
  after_child-denied cs ctx input (returned (false, none) w) later = refl
  after_child-denied cs ctx input (panicked p w) later = refl

  check_children-denied :
      (children : List (Option (Condition Host))) (ctx : Context Host) (input : Pointer)
      (w : World Host)
      → ctx.recorder ≡ none
      → negated (check_children condition_all children ctx input w)
        ≡ check_children condition_any (map denied children) ctx input w
  unfolding call_child check_children
  check_children-denied [] ctx input w untraced = refl
  check_children-denied (c ∷ cs) ctx input w untraced =
      ap negated (check_children-cons condition_all c cs ctx input w)
      ∙ after_child-denied cs ctx input (call_child c ctx input w)
          (λ w'. check_children-denied cs ctx input w' untraced)
      ∙ ap (after_child condition_any (map denied cs) ctx input)
          (sym (not_of-negated c ctx input w untraced))
      ∙ sym (check_children-cons condition_any (denied c) (map denied cs) ctx input w)

  -- Outside of a trace, Not of All is Any of the Nots: the same calls in the same order with the same
  -- writes, the same stop, error or panic, and the negated answer, nil children included.
  pub not_of-all_of :
      (children : List (Option (Condition Host))) (ctx : Context Host) (input : Pointer)
      (w : World Host)
      → ctx.recorder ≡ none
      → not_of (some (all_of children)) ctx input w
        ≡ any_of (map (λ c. some (not_of c)) children) ctx input w
  unfolding all_of any_of call_child
  not_of-all_of children ctx input w untraced =
      not_of-negated (some (all_of children)) ctx input w untraced
      ∙ ap (λ r. negated (combine r condition_all children ctx input w)) untraced
      ∙ check_children-denied children ctx input w untraced
      ∙ sym (ap (λ r. combine r condition_any (map denied children) ctx input w) untraced)
