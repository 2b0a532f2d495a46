-- ===== src/Github/Caching.antt =====
-- The cache in front of GitHub never changes an answer.
use text.Mathlib.TextLemmas.{append_cancel_left}
use software_engineering_sch.Base.{
  ℕ, String, some, List, [], ◌∷◌, map, ◌≡◌, ◌⊎◌, inl, inr, refl, sym, ap, ◌∙◌, ◌==◌, eq_iff,
  Bool-cases,
}
use software_engineering_sch.Errors.{Result, ok, err}
use software_engineering_sch.Scanner.Service.{ReleaseProvider}
use software_engineering_sch.Github.Provider.{
  Cache, cache_key, cached_provider, with_cached, store_tag,
}

-- What a store has of a key is the value, unless it has nothing: `Get` fails, or has no text.
abbrev pub HasAtMost : Result String → String → Type 0
HasAtMost (err e) value = Unit
HasAtMost (ok found) value = (found ≡ "") ⊎ (found ≡ value)

-- Redis as it is documented: a `Get` after a `Set` has the value of the last `Set` of its key, or
-- nothing, and a `Set` that fails may leave the key as it was; what is there may be gone when the next request comes.
pub record IsStore {S : Type 0} (cache : Cache S) (wait : S → S) : Type 0 where
  pub sets :
      (key other value v : String) (ttl : ℕ) (s : S)
      → HasAtMost (cache.get other s) v
      → HasAtMost (cache.get other (cache.set key value ttl s).1) v
        ⊎ ((other ≡ key) × HasAtMost (cache.get other (cache.set key value ttl s).1) value)
  pub waits :
      (key v : String) (s : S)
      → HasAtMost (cache.get key s) v
      → HasAtMost (cache.get key (wait s)) v

module _ {S : Type 0} (cache : Cache S) (wait : S → S) (next : ReleaseProvider) (ttl : ℕ) where
  -- The requests for these repositories, one after another: the answers, and the store then.
  unfoldable pub ask_all : List String → S → List (Result String) × S
  ask_all [] s = ([], s)
  ask_all (repo ∷ repos) s =
      let (answer, after) = cached_provider (some cache) next ttl repo s in
      let (answers, last) = ask_all repos (wait after) in (answer ∷ answers, last)

  -- What is cached of a repository is what GitHub answers.
  abbrev pub IsCurrent : S → Type 0
  IsCurrent s =
      (repo tag : String)
      → cache.get (cache_key repo) s ≡ ok tag
      → (tag ≡ "") ⊎ (next repo ≡ ok tag)

  module _ (store : IsStore cache wait) where
    at_most :
        (repo tag : String) (r : Result String)
        → HasAtMost r tag
        → next repo ≡ ok tag
        → (found : String) → r ≡ ok found
        → (found ≡ "") ⊎ (next repo ≡ ok found)
    at_most repo tag (err e) h answer found at = cc
    at_most repo tag (ok x) h answer found at =
        let same : x ≡ found = cc at in
        elim h [
          | inl empty ↦ inl (sym same ∙ empty)
          | inr eq ↦ inr (answer ∙ ap ok (sym eq ∙ same))
        ]

    -- What is there of a key is there at most, of itself.
    itself : (r : Result String) (tag : String) → r ≡ ok tag → HasAtMost r tag
    itself (ok x) tag e = inr (cc e)
    itself (err e) tag h = tt

    nothing : (r : Result String) (found : String) → HasAtMost r "" → r ≡ ok found → found ≡ ""
    nothing (ok x) found h at =
        let same : x ≡ found = cc at in elim h [ inl e ↦ sym same ∙ e | inr e ↦ sym same ∙ e ]
    nothing (err e) found h at = cc

    -- A text that is there at most bounds what was there.
    bound :
        (repo : String) (r : Result String)
        → ((tag : String) → r ≡ ok tag → (tag ≡ "") ⊎ (next repo ≡ ok tag))
        → HasAtMost r "" ⊎ ((tag : String) × (next repo ≡ ok tag) × HasAtMost r tag)
    bound repo (err e) h = inl tt
    bound repo (ok x) h = elim (h x refl) [
      | inl empty ↦ inl (inl empty)
      | inr answer ↦ inr (x, answer, inr refl)
    ]

    stored :
        (repo tag : String) (s : S)
        → next repo ≡ ok tag
        → IsCurrent s
        → IsCurrent (cache.set (cache_key repo) tag ttl s).1
    stored repo tag s answer current other found at =
        let there = cache.get (cache_key other) (cache.set (cache_key repo) tag ttl s).1 in
        let same_key : (cache_key other ≡ cache_key repo) × HasAtMost there tag
            → (found ≡ "") ⊎ (next other ≡ ok found) =
          λ (same, h).
            at_most other tag there h (ap next (append_cancel_left _ other repo same) ∙ answer)
              found at in
        elim (bound other (cache.get (cache_key other) s) (current other)) [
          | inl empty ↦ elim (store.sets (cache_key repo) (cache_key other) tag "" ttl s empty) [
            | inl h ↦ inl (nothing there found h at)
            | inr h ↦ same_key h
          ]
          | inr (v, known, h) ↦ elim (store.sets (cache_key repo) (cache_key other) tag v ttl s h) [
            | inl kept ↦ at_most other v there kept known found at
            | inr k ↦ same_key k
          ]
        ]

    waited : (s : S) → IsCurrent s → IsCurrent (wait s)
    waited s current repo found at =
        let there = cache.get (cache_key repo) (wait s) in
        elim (bound repo (cache.get (cache_key repo) s) (current repo)) [
          | inl empty ↦ inl (nothing there found (store.waits (cache_key repo) "" s empty) at)
          | inr (v, known, h) ↦
              at_most repo v there (store.waits (cache_key repo) v s h) known found at
        ]

    -- The answer without a hit.
    asked :
        (repo : String) (r : Result String) (s : S)
        → next repo ≡ r
        → IsCurrent s
        → ((store_tag cache next ttl repo r s).0 ≡ r)
          × IsCurrent (store_tag cache next ttl repo r s).1
    unfolding store_tag
    asked repo (err e) s answer current = (refl, current)
    asked repo (ok tag) s answer current = elim (Bool-cases (tag == "")) [
      | inl empty ↦ rw empty (refl, current)
      | inr some_tag ↦ rw some_tag (refl, stored repo tag s answer current)
    ]

    looked_up :
        (repo : String) (r : Result String) (s : S)
        → cache.get (cache_key repo) s ≡ r
        → IsCurrent s
        → ((with_cached cache next ttl repo r s).0 ≡ next repo)
          × IsCurrent (with_cached cache next ttl repo r s).1
    unfolding with_cached
    looked_up repo (err e) s at current = asked repo (next repo) s refl current
    looked_up repo (ok found) s at current = elim (Bool-cases (found == "")) [
      | inl empty ↦ rw empty (asked repo (next repo) s refl current)
      | inr filled ↦ rw filled (
        elim (current repo found at) [
          | inl e ↦ cc (filled, (eq_iff found "").1 e)
          | inr answer ↦ sym answer
        ],
        current,
      )
    ]

  -- While GitHub's answers stay the same, and a store keeps at most what was set: the cached provider
  -- answers any sequence of questions as the provider behind it does, errors and empty tags included,
  -- whatever the store loses and whichever of its calls fail, if what it has at first is current.
  pub caching_transparent :
      (repos : List String) (s : S)
      → IsStore cache wait
      → IsCurrent s
      → (ask_all repos s).0 ≡ map next repos
  unfolding ask_all cached_provider
  caching_transparent [] s store current = refl
  caching_transparent (repo ∷ repos) s store current =
      let (answer, after) = looked_up store repo (cache.get (cache_key repo) s) s refl current in
      rw (answer, caching_transparent repos _ store (waited store _ after)) refl
