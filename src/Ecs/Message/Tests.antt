-- ===== src/Ecs/Message/Tests.antt =====
-- An inbox with one message.
use oyi_engine.Prelude.{◌≡◌, refl, [], ◌∷◌, ◌++◌, ◌==◌, if◌then◌else◌}
use oyi_engine.Core.Handle.{Handle}
use oyi_engine.Ecs.Message.{Inbox, lanes_for, lane_at, push, targets, payload}
use oyi_engine.Ecs.Message.Lanes.{targets-push}

abbrev target : Handle
target = record { index = 3; generation = 1 }

abbrev inbox : Inbox
inbox = record { lanes = record { targets = target ∷ []; payload = 7 ∷ [] } ∷ []; total = 1 }

push_grows : (targets (push inbox 2 target (9 ∷ [])) 2 ≡ target ∷ []) × (payload inbox 0 ≡ 7 ∷ [])
unfolding push lanes_for lane_at targets payload
push_grows = (refl, refl)

targets-push_example :
    (targets (push inbox 2 target (9 ∷ [])) 0
      ≡ (if (2 == 0) then targets inbox 0 ++ target ∷ [] else targets inbox 0))
    × (payload (push inbox 2 target (9 ∷ [])) 0
        ≡ (if (2 == 0) then payload inbox 0 ++ (9 ∷ []) else payload inbox 0))
targets-push_example = targets-push inbox 2 0 target (9 ∷ [])
