-- ===== src/Examples/Dispatch.antt =====
-- The theorems on the dispatcher at concrete inputs: a group with an idle agent, and a queue of one
-- call.
use ccc.Prelude.{
  if◌then◌else◌, ℕ, ◌+◌, ◌≡◌, refl, true, false, none, some, List, [], ◌∷◌, arith, ◌==◌, Result,
  inl, ◌≤◌, inr,
}
use ccc.Prelude.Int.{ℤ, pos}
use ccc.Presence.Entity.{AgentPresence, idle, SubState, WorkMode}
use ccc.Presence.Table.{row_of}
use ccc.Acd.Member.{member_for, parse_member, parse_member-member_for}
use ccc.Acd.Queue.{Entry, has_member, same_codes, remove_member}
use ccc.Acd.World.{Backend, Env, World, SkillGroup, other_policy}
use ccc.Acd.Service.{IdleAgent, AcdError, pick_agent, enqueue, dispatch_one, expire_queued}
use ccc.Acd.Pick.{IsIdle}
use ccc.Acd.Choice.{pick_agent-longest}
use ccc.Acd.Dispatch.{Dispatched, dispatch_one-Dispatched}
use ccc.Acd.Expiry.{Sifted, end_calls, expire_queued-exact}
use ccc.Acd.Ordered.{InOrder}
use ccc.Acd.History.{AcdRequest, WasEnqueued, attend_all, attend_all-InOrder}
use ccc.Acd.Overflow.{Placed, enqueue-Stored}

abbrev env : Env
env = record { redis_fails = λ _. false; rolls = λ _. 0; walk = λ gs. gs }

abbrev group : SkillGroup
group = record {
  id = 1;
  tenant_id = 7;
  routing_policy = other_policy;
  max_queue_size = 1;
  max_wait_sec = 60;
  overflow_group = some 2;
}

abbrev agent : AgentPresence
agent = record {
  id = 1;
  tenant_id = 7;
  agent_id = 3;
  status = idle;
  sub_state = SubState.no_sub_state;
  work_mode = WorkMode.office;
  break_reason_code = "";
  disposition_code = "";
  current_call_id = none;
  acw_seconds = 30;
  checked_in_at = some 0;
  last_status_at = 0;
  updated_at = 0;
}

-- The state behind the interfaces counts the calls ended.
abbrev backend : Backend ℕ
backend = record {
  find_group = λ i s. if i == 1 then some group else none;
  members_of = λ i s. some (3 ∷ []);
  presences_of = λ m s. some (agent ∷ []);
  find_call = none;
  ring = λ c a s. (true, s);
  end_call = λ c s. (true, s + 1);
}

abbrev waiting_call : Entry
waiting_call = record { score = pos 5000; member = b'9' ∷ b':' ∷ b'5' ∷ [] }

abbrev idle_world : World ℕ
idle_world = record {
  backend = 0;
  queues = λ i. [];
  active_groups = [];
  claims = λ a. none;
  cursors = λ g. 0;
  memories = [];
  commands = 0;
  rolled = 0;
}

abbrev one_waiting : World ℕ
one_waiting = record idle_world { queues = λ i. waiting_call ∷ [] }

parse_member-member_for_example :
    parse_member (member_for (pos 9) (pos 1700000000000)) ≡ some (pos 9, pos 1700000000000)
parse_member-member_for_example =
    parse_member-member_for (pos 9) (pos 1700000000000) (omega arith) (omega arith)

pick_agent-longest_example :
    (c : IdleAgent) × ((pick_agent backend env group (pos 9) 6 one_waiting).0 ≡ c.0)
    × IsIdle c (3 ∷ []) (agent ∷ [])
    × (c.1 ≤ 0)
unfolding row_of
pick_agent-longest_example =
    pick_agent-longest backend env group (pos 9) 6 one_waiting 3 agent (3 ∷ []) (agent ∷ []) refl
      refl refl (inl refl) refl refl

dispatch_one-Dispatched_example :
    Dispatched backend env 1 group 6 one_waiting (dispatch_one backend env 1 group 6 one_waiting)
dispatch_one-Dispatched_example =
    dispatch_one-Dispatched backend env (λ _. refl) 1 group 6 one_waiting (tt, tt)

-- The call rings, and the queue is empty.
dispatched_queue : (dispatch_one backend env 1 group 6 one_waiting).queues 1 ≡ []
unfolding dispatch_one row_of parse_member has_member same_codes remove_member
dispatched_queue = refl

expire_queued-exact_example :
    (left : List Entry) × (calls : List ℤ) × Sifted 90000 60000 (waiting_call ∷ []) left calls
    × ((expire_queued backend env 1 group 90000 one_waiting).queues 1 ≡ left)
    × ((expire_queued backend env 1 group 90000 one_waiting).backend
        ≡ end_calls backend env calls 0)
expire_queued-exact_example =
    expire_queued-exact backend env 1 group 90000 one_waiting (λ _. refl) (tt, tt) (omega arith)

abbrev work : List (AcdRequest ℕ × ℕ)
work =
    (AcdRequest.enqueues 1 (pos 9) 2 (pos 0), 5)
    ∷ (AcdRequest.dispatches 2 group, 6)
    ∷ (AcdRequest.ticks, 7)
    ∷ []

attend_all-InOrder_example : InOrder (WasEnqueued work) (attend_all backend env work idle_world)
attend_all-InOrder_example = attend_all-InOrder backend env work idle_world (λ i. refl)

-- The queue of the group 1 is full, and the call goes to that of the group 2.
enqueue-Stored_example :
    (r : Result AcdError (Unit {0}) × World ℕ) × (enqueue backend env 2
        (pos 9)
        1
        (pos 0)
        5
        one_waiting
      ≡ some r)
    × Placed backend env 1 (pos 9) (pos 0) 5 one_waiting r
enqueue-Stored_example =
    enqueue-Stored backend env 2 (pos 9) 1 (pos 0) 5 one_waiting (λ _. refl)
      (inr (2, refl, inl refl))
