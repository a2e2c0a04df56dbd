-- ===== src/Example1/Data.antt =====
-- example1/Data.h, Data.cc and FsmData.h: the data of one request of the example, and the time that it
-- takes. `A` stands for the buffers, whose type `shared_string_array` is not in the repository; a null
-- buffer is `none`. The clock is an argument.
pub mod Elapsed
use zerver.Prelude.{ℕ, ◌+◌, ◌*◌, Bool, false, Option, none, List, [], ◌≡◌, ◌↔◌, arith}
use zerver.Prelude.Time.{Timeval}
use zerver.Prelude.Int.{ℤ, pos, sub_ℕ, ◌+ℤ◌, scale, quot, to_int}

-- `elapsed_ms_from_now`, with the time that `gettimeofday` gives.
unfoldable pub elapsed_ms : Timeval → Timeval → ℤ
elapsed_ms now time =
    to_int (scale 1000 (sub_ℕ now.tv_sec time.tv_sec) +ℤ quot (sub_ℕ now.tv_usec time.tv_usec) 1000)

pub record Data (A : Type 0) : Type 0 where
  pub ad_req_ver : ℕ
  pub use_feature_server : Bool
  pub head_len : ℤ
  pub origin_model_id : ℤ
  pub model_id : ℤ
  pub random_percent : ℤ
  pub is_random_model_id : Bool
  pub do_random : Bool
  pub multi_model : Bool
  pub pos_id : ℤ
  pub sku_num : ℤ
  pub ad_req_body_size : ℤ
  pub user_pin_hash : ℤ
  pub ad_req : Option A
  pub fs_req_sku_nums : List ℤ
  pub ps_req_sku_nums : List ℤ
  pub shard_fs_num : ℤ
  pub shard_fs : Bool
  pub split_time : ℤ
  pub reply_len : ℤ
  pub fs_req_lens : List ℕ
  pub fs_start_time : Timeval
  pub ads_start_time : Timeval
  pub fs_res_time : List ℤ
  pub fs_reqs : List (Option A)
  pub fs_resp_sizes : List ℕ
  pub fs_resp_compressed_vec : List Bool
  pub fs_resps : List (Option A)
  pub sub_model_id_list : List ℤ
  pub ps_req_compressed : Bool
  pub ps_reqs : List (Option A)
  pub shard_ps_num : ℤ
  pub shard_ps : Bool
  pub ps_req_lens : List ℕ
  pub ps_start_time : List Timeval
  pub ps_res_time : List ℤ
  pub ps_resps : List (Option A)
  pub ps_resp_sizes : List ℕ

unfoldable pub reset : {A : Type 0} → Data A → Data A
reset d = record d {
  ad_req_ver = 0;
  use_feature_server = false;
  head_len = pos 0;
  origin_model_id = pos 0;
  model_id = pos 0;
  random_percent = pos 0;
  is_random_model_id = false;
  do_random = false;
  multi_model = false;
  pos_id = pos 0;
  sku_num = pos 0;
  ad_req_body_size = pos 0;
  user_pin_hash = pos 0;
  ad_req = none;
  fs_req_sku_nums = [];
  ps_req_sku_nums = [];
  shard_fs_num = pos 0;
  shard_fs = false;
  split_time = pos 0;
  reply_len = pos 0;
  fs_req_lens = [];
  fs_res_time = [];
  fs_reqs = [];
  fs_resp_sizes = [];
  fs_resp_compressed_vec = [];
  fs_resps = [];
  sub_model_id_list = [];
  ps_req_compressed = false;
  ps_reqs = [];
  shard_ps_num = pos 0;
  shard_ps = false;
  ps_req_lens = [];
  ps_start_time = [];
  ps_res_time = [];
  ps_resps = [];
  ps_resp_sizes = [];
}

-- `FsmData` holds the data that the views of all modules share; its `reset` is that of the data.
pub record FsmData (A : Type 0) : Type 0 where
  pub data_ : Data A

unfoldable pub reset_fsm_data : {A : Type 0} → FsmData A → FsmData A
unfolding reset
reset_fsm_data f = record { data_ = reset f.data_ }

-- What is left of a request's data after `reset`: when it was begun, and when its feature servers were
-- asked. Two data are the same after `reset` exactly if they agree in these.
pub reset-forgets :
    {A : Type 0} (f g : FsmData A)
    → (reset_fsm_data f ≡ reset_fsm_data g) ↔ (
        (f.data_.fs_start_time ≡ g.data_.fs_start_time)
        × (f.data_.ads_start_time ≡ g.data_.ads_start_time))
unfolding reset_fsm_data
reset-forgets f g = (λ h. ground arith, λ h. ground arith)
