-- ===== src/Cluster/Node/Tags.antt =====
-- History tags order by the epoch and tell the leaders of one epoch apart.
use corndogs.Prelude.{ℕ, ◌^◌, ◌<◌, ◌≡◌, ◌↔◌, ◌⊎◌, arith}
use corndogs.Cluster.Node.{history_tag}

-- The tags of two leaders are in the order of their epochs, and in one epoch in that of their member
-- indices, for epochs below 2 ^ 56 and clusters of at most 255 members.
pub less-history_tag :
    (e i e' i' : ℕ)
    → e < 2 ^ 56
    → e' < 2 ^ 56
    → i < 256
    → i' < 256
    → (history_tag e i < history_tag e' i') ↔ ((e < e') ⊎ ((e ≡ e') × (i < i')))
unfolding history_tag
less-history_tag e i e' i' h h' k k' = (λ l. ground arith, λ l. ground arith)
