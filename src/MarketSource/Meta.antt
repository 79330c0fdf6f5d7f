-- ===== src/MarketSource/Meta.antt =====
-- core/data.py: the cache of `HyperliquidSource._meta`. A time is a number of the monotonic clock.
use agora_perp_agent.Prelude.{
  ◌≡◌, ◌⊎◌, true, ◌&&◌, Option, none, some, if◌then◌else◌, arith, inl, inr, Option-cases,
}
use agora_perp_agent.Prelude.Errors.{Error, Result, ok, err, Result-cases}
use agora_perp_agent.Float.Ops.{Float, zero, ◌-◌, ◌<?◌, ◌>?◌}
use agora_perp_agent.Contracts.Json.{Json}

module _ {F : Type 0} ⦃f : Float F⦄ where
  -- The test of the cache at a time.
  unfoldable pub warm : F → F → Option (F × Json F) → Option (Json F)
  warm ttl now none = none
  warm ttl now (some (fetched_at, payload)) =
      if (ttl >? zero) && (now - fetched_at <? ttl) then some payload else none

  -- `_meta`: the two tests, each at its time, the second one under the lock, where other threads may
  -- have left another cache, and then the request, with the time at which it ends. It returns what the
  -- call does and the cache that it leaves.
  unfoldable pub meta_of :
      F
      → F
      → Option (F × Json F)
      → F
      → Option (F × Json F)
      → Result (Json F)
      → F
      → Result (Json F) × Option (F × Json F)
  unfolding warm
  meta_of ttl now cache now_locked cache_locked posted done_at = elim (warm ttl now cache) [
    | some payload ↦ (ok payload, cache)
    | none ↦ elim (warm ttl now_locked cache_locked) [
      | some payload ↦ (ok payload, cache_locked)
      | none ↦ elim posted [
        | err e ↦ (err e, cache_locked)
        | ok payload ↦ (ok payload, some (done_at, payload))
      ]
    ]
  ]

  -- What was fetched less than the time to live before a time, if that is positive.
  abbrev pub IsFresh : F → F → Option (F × Json F) → Json F → Type 0
  IsFresh ttl now cache payload =
      (fetched_at : F) × (cache ≡ some (fetched_at, payload))
      × ((ttl >? zero) ≡ true)
      × ((now - fetched_at <? ttl) ≡ true)

  warm-IsFresh :
      (ttl now : F) (cache : Option (F × Json F)) (payload : Json F)
      → warm ttl now cache ≡ some payload
      → IsFresh ttl now cache payload
  unfolding warm
  warm-IsFresh ttl now none payload e = absurd (ground arith)
  warm-IsFresh ttl now (some (fetched_at, kept)) payload e =
      (fetched_at, ground arith, ground arith, ground arith)

  -- A payload of `_meta` is from a cache entry that was younger than the time to live when it was
  -- tested, or was fetched by this very call, which then leaves it in the cache. A call that raises has
  -- made the request and leaves the cache as it found it.
  pub meta_of_outcome :
      (ttl now : F) (cache : Option (F × Json F)) (now_locked : F)
      (cache_locked : Option (F × Json F)) (posted : Result (Json F)) (done_at : F)
      (r : Result (Json F)) (after : Option (F × Json F))
      → meta_of ttl now cache now_locked cache_locked posted done_at ≡ (r, after)
      → ((payload : Json F) × (r ≡ ok payload)
          × (IsFresh ttl now cache payload ⊎ IsFresh ttl now_locked cache_locked payload))
        ⊎ ((r ≡ posted)
            × (warm ttl now cache ≡ none)
            × (warm ttl now_locked cache_locked ≡ none)
            × (((payload : Json F) × (posted ≡ ok payload) × (after ≡ some (done_at, payload)))
                ⊎ ((x : Error) × (posted ≡ err x) × (after ≡ cache_locked))))
  unfolding meta_of
  meta_of_outcome ttl now cache now_locked cache_locked posted done_at r after e =
      elim (Option-cases (warm ttl now cache)) [
        | inr (payload, hot) ↦
            inl (payload, ground arith, inl (warm-IsFresh ttl now cache payload hot))
        | inl cold ↦ elim (Option-cases (warm ttl now_locked cache_locked)) [
          | inr (payload, hot) ↦
              inl
                (payload, ground arith, inr (warm-IsFresh ttl now_locked cache_locked payload hot))
          | inl still_cold ↦ elim (Result-cases posted) [
            | inl (payload, got) ↦
                inr (ground arith, cold, still_cold, inl (payload, got, ground arith))
            | inr (x, failed) ↦ inr (ground arith, cold, still_cold, inr (x, failed, ground arith))
          ]
        ]
      ]
