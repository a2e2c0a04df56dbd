-- ===== src/Examples/Data.antt =====
-- Tests of example1/Data.h, Data.cc and FsmData.h, and of the numbers that framework/data.cc draws.
use zerver.Prelude.{ℕ, ◌+◌, ◌-◌, ◌*◌, ◌%◌, ◌<◌, true, none, some, [], ◌∷◌, ◌≡◌, refl, arith, ◌↔◌}
use zerver.Prelude.Int.{pos, negsuc, to_int, ◌+ℤ◌, scale, quot}
use zerver.Prelude.Time.{Timeval}
use zerver.Framework.Context.Rand.{draws, draws-same}
use zerver.Example1.Data.{elapsed_ms, Data, reset_fsm_data, reset-forgets}
use zerver.Example1.Data.Elapsed.{micros, elapsed_ms_bounds}

abbrev started : Timeval
started = record { tv_sec = 10; tv_usec = 999_999 }

abbrev answered : Timeval
answered = record { tv_sec = 12; tv_usec = 0 }

-- 1000.001 milliseconds are given as 1001.
elapsed_test : elapsed_ms answered started ≡ pos 1001
unfolding elapsed_ms to_int ◌+ℤ◌ scale quot
elapsed_test = refl

elapsed_ms_bounds_example :
    (ms : ℕ) × (elapsed_ms answered started ≡ pos ms)
    × (ms * 1000 < (micros answered - micros started) + 1000)
    × ((micros answered - micros started) < ms * 1000 + 1000)
elapsed_ms_bounds_example =
    elapsed_ms_bounds answered started (omega arith) (omega arith) (omega arith) (omega arith)

abbrev used : Data ℕ
used = record {
  ad_req_ver = 0;
  use_feature_server = true;
  head_len = pos 3;
  origin_model_id = pos 3;
  model_id = pos 3;
  random_percent = pos 3;
  is_random_model_id = true;
  do_random = true;
  multi_model = true;
  pos_id = pos 3;
  sku_num = pos 3;
  ad_req_body_size = pos 3;
  user_pin_hash = pos 3;
  ad_req = some 9;
  fs_req_sku_nums = [];
  ps_req_sku_nums = [];
  shard_fs_num = pos 3;
  shard_fs = true;
  split_time = pos 3;
  reply_len = pos 3;
  fs_req_lens = [];
  fs_start_time = started;
  ads_start_time = started;
  fs_res_time = [];
  fs_reqs = [];
  fs_resp_sizes = [];
  fs_resp_compressed_vec = [];
  fs_resps = [];
  sub_model_id_list = [];
  ps_req_compressed = true;
  ps_reqs = [];
  shard_ps_num = pos 3;
  shard_ps = true;
  ps_req_lens = [];
  ps_start_time = [];
  ps_res_time = [];
  ps_resps = [];
  ps_resp_sizes = [];
}

abbrev other : Data ℕ
other = record used { ads_start_time = answered; model_id = negsuc 0; fs_reqs = some 4 ∷ [] }

reset-forgets_example :
    (reset_fsm_data (record { data_ = used }) ≡ reset_fsm_data (record { data_ = other }))
    ↔ ((started ≡ started) × (started ≡ answered))
reset-forgets_example = reset-forgets (record { data_ = used }) (record { data_ = other })

-- A generator of small numbers, for two threads.
abbrev rand_r : ℕ → ℕ × ℕ
rand_r seed = ((seed * 5 + 3) % 16, (seed * 5 + 3) % 16)

-- The threads draw first at 10 seconds and at 12 seconds.
draws-same_example :
    draws rand_r (record { tv_sec = 10; tv_usec = 0 } ∷ started ∷ []) none
    ≡ draws rand_r (record { tv_sec = 12; tv_usec = 0 } ∷ answered ∷ []) none
draws-same_example =
    draws-same rand_r (record { tv_sec = 10; tv_usec = 0 }) (record { tv_sec = 12; tv_usec = 0 })
      (started ∷ []) (answered ∷ []) refl refl
