-- ===== src/Tiers.antt =====
-- core/tiers.py: the tier table.
use agora_perp_agent.Prelude.{String, [], ◌∷◌, none, some}
use agora_perp_agent.Prelude.Dict.{Dict, lookup}
use agora_perp_agent.Contracts.{Tier, t1, t2, t3, t4}

abbrev pub default_tier_table : Dict Tier
default_tier_table =
    ("BTC", t1)
    ∷ ("ETH", t1)
    ∷ ("SOL", t2)
    ∷ ("BNB", t2)
    ∷ ("XRP", t2)
    ∷ ("LINK", t3)
    ∷ ("AVAX", t3)
    ∷ ("OP", t3)
    ∷ ("ARB", t3)
    ∷ ("DOGE", t3)
    ∷ ("SUI", t4)
    ∷ ("TIA", t4)
    ∷ []

unfoldable pub classify_tier : String → Tier
classify_tier asset = elim (lookup asset default_tier_table) [ none ↦ t4 | some tier ↦ tier ]
