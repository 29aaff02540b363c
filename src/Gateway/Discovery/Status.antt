-- ===== src/Gateway/Discovery/Status.antt =====
-- The status and the header of each answer about services.

use fir_etcd.Prelude.{◌≡◌, ◌⊎◌, none, some}
use fir_etcd.Gateway.{plain_text}
use fir_etcd.Gateway.Discovery.{ServiceAnswer}

-- A refusal in plain text, or an answer whose header names no type.
abbrev pub IsUntyped : ServiceAnswer → Type 0
IsUntyped a =
    (a.writer.sent ≡ some (405, some plain_text))
    ⊎ ((a.writer.sent ≡ some (400, some plain_text))
        ⊎ ((a.writer.sent ≡ some (500, none)) ⊎ (a.writer.sent ≡ some (200, none))))
