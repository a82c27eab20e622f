-- ===== src/Tests/Backup.antt =====
-- A backup from one fresh connection to another, in one step.
use rapsqlite.Prelude.{refl, none, codes}
use rapsqlite.Prelude.Int.{pos}
use rapsqlite.Backup.{backup}
use rapsqlite.Backup.Loop.{now}
use rapsqlite.Backup.Returns.{EndsWell, backup-EndsWell}
use rapsqlite.Tests.{backup_env, fresh}

backup-EndsWell_example : EndsWell 1 (backup backup_env 1 (codes "main") (pos 0) none fresh fresh)
backup-EndsWell_example =
    backup-EndsWell backup_env 1 (codes "main") (pos 0) 1 (λ k t. now refl) none fresh fresh refl
      refl
