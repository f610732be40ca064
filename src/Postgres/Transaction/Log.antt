-- ===== src/Postgres/Transaction/Log.antt =====
-- Counts over a log of transactions.
use gframework.Base.{ℕ, suc, none, some, List, [], ◌∷◌}
use gframework.Postgres.Transaction.{TxEvent, begun, committed, rolled_back}

abbrev pub begins : List TxEvent → ℕ
begins [] = 0
begins (begun o ∷ es) = suc (begins es)
begins (committed r ∷ es) = begins es
begins (rolled_back r ∷ es) = begins es

-- Transactions that were ended, by a commit or a rollback.
abbrev pub ends : List TxEvent → ℕ
ends [] = 0
ends (begun o ∷ es) = ends es
ends (committed r ∷ es) = suc (ends es)
ends (rolled_back r ∷ es) = suc (ends es)

-- Commits that the driver reported as done.
abbrev pub commits : List TxEvent → ℕ
commits [] = 0
commits (begun o ∷ es) = commits es
commits (committed none ∷ es) = suc (commits es)
commits (committed (some e) ∷ es) = commits es
commits (rolled_back r ∷ es) = commits es
