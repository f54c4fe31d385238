-- ===== src/Examples/Rig.antt =====
-- The rig of the tests on SV2 sessions: three members with a channel each, two of them in a group.
use blitzpool_rental_proxy.Prelude.{ℕ, false, none, some, [], ◌∷◌}
use blitzpool_rental_proxy.Prelude.Strings.{codes}
use blitzpool_rental_proxy.Session.{idle}
use blitzpool_rental_proxy.Session.Window.{HashrateWindow}
use blitzpool_rental_proxy.Sv2.{OpenSpec, standard, extended, Channel, Inner, Frame}
use blitzpool_rental_proxy.Sv2.Frames.{Codec}
use blitzpool_rental_proxy.Examples.Data.{pool}

abbrev pub window : HashrateWindow ℕ
window = record { window = 600; samples = (1, 5) ∷ (500, 5) ∷ [] }

abbrev pub channel : ℕ → ℕ → OpenSpec ℕ → ℕ → ℕ → ℕ → Channel ℕ
channel down up spec owner up_group down_group = record {
  down_channel_id = down;
  up_channel_id = up;
  spec = spec;
  difficulty = 1;
  owner = owner;
  up_group_id = up_group;
  down_group_id = down_group;
}

-- Members 1 and 2 are in one group, member 3 has a standard channel.
abbrev pub session : Inner ℕ
session = record {
  generation = 1;
  target = pool;
  generation_counter = 1;
  channels =
      channel 1 11 (extended 5 10 [] 8) 1 7 70
      ∷ channel 2 12 (extended 6 10 [] 8) 2 7 70
      ∷ channel 3 13 (standard 7 10 []) 3 0 0
      ∷ [];
  up_to_down = (11, 1) ∷ (12, 2) ∷ (13, 3) ∷ [];
  group_down = (7, 70) ∷ [];
  pending = (4, (2, standard 9 10 [])) ∷ [];
  next_down_cid = 4;
  next_up_req = 5;
  members = 1 ∷ 2 ∷ 3 ∷ [];
  next_member_id = 4;
  routing = idle;
  default_target = some pool;
  hashrate = window;
  delivered_work = 0;
  accepted_shares = 0;
  submitted_shares = 0;
  accept_low_logged = false;
  label = codes "v.rig";
  translating = false;
  idle_token = 2;
}

abbrev pub job : Frame
job = record { msg_type = some 0x1f; payload = 7 ∷ 0 ∷ 0 ∷ 0 ∷ 9 ∷ [] }

abbrev pub no_codec : Codec ℕ
no_codec = record {
  types = record {
    new_mining_job = 0x15;
    new_extended_mining_job = 0x1f;
    set_new_prev_hash = 0x20;
    set_extranonce_prefix = 0x19;
    set_target = 0x21;
    submit_shares_standard = 0x1a;
    submit_shares_extended = 0x1b;
    submit_shares_success = 0x1c;
    submit_shares_error = 0x1d;
    update_channel = 0x16;
    update_channel_error = 0x17;
    close_channel = 0x18;
    open_extended_success = 0x14;
    open_standard_success = 0x11;
    open_error = 0x12;
  };
  parse_open_success = λ payload. none;
  parse_open_error_request_id = λ payload. none;
  parse_accepted_count = λ payload. some 1;
  parse_set_target = λ payload. none;
  difficulty_from_target = λ target. 1;
}
