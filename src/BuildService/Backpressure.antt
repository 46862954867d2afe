-- ===== src/BuildService/Backpressure.antt =====
-- services/build-service/internal/queue/backpressure.go. The depth of the queue is what the broker
-- answers; the metrics and the logs are left out, and a refusal carries its threshold and the depth
-- in place of the formatted text.
pub mod Levels
use mini_lambda.Common.{
  ℕ, ◌*◌, ◌/◌, String, Bool, Option, none, some, List, [], ◌∷◌, leb, if◌then◌else◌,
}
use mini_lambda.Common.Int.{ℤ, pos, negsuc}

abbrev pub max_queue_depth : ℕ
max_queue_depth = 100

abbrev pub queue_depth_critical : ℕ
queue_depth_critical = 80

abbrev pub queue_depth_warning : ℕ
queue_depth_warning = 50

pub data BackpressureLevel : Type 0 where
  no_backpressure warning critical full : BackpressureLevel

pub record ThresholdInfo : Type 0 where
  pub val : ℕ
  pub label : String
  pub log_msg : String
  pub user_msg : String
  pub level : BackpressureLevel

unfoldable pub backpressure_thresholds : List ThresholdInfo
backpressure_thresholds =
    record {
      val = max_queue_depth;
      label = "queue_full";
      log_msg = "full";
      user_msg = "at capacity";
      level = full;
    }
    ∷ record {
      val = queue_depth_critical;
      label = "queue_critical";
      log_msg = "at critical level";
      user_msg = "at critical level";
      level = critical;
    }
    ∷ record {
      val = queue_depth_warning;
      label = "queue_warning";
      log_msg = "at warning level";
      user_msg = "at warning level";
      level = warning;
    }
    ∷ []

-- The loops over the thresholds: the first that the depth reaches.
unfoldable pub first_reached : ℕ → List ThresholdInfo → Option ThresholdInfo
first_reached depth [] = none
first_reached depth (t ∷ ts) =
    let later = first_reached depth ts in if leb t.val depth then some t else later

pub data Admission : Type 0 where
  accepted queue_unknown : Admission
  rejected : ThresholdInfo → ℕ → Admission

abbrev pub admission_of : ℕ → Option ThresholdInfo → Admission
admission_of depth none = accepted
admission_of depth (some t) = rejected t depth

-- `CanAcceptRequest`; none is an error of the broker.
unfoldable pub can_accept_request : Option ℕ → Admission
can_accept_request none = queue_unknown
can_accept_request (some depth) = admission_of depth (first_reached depth backpressure_thresholds)

abbrev pub level_of : Option ThresholdInfo → BackpressureLevel
level_of none = no_backpressure
level_of (some t) = t.level

-- `GetBackpressureLevel`, for a depth that the broker gives.
unfoldable pub get_backpressure_level : ℕ → BackpressureLevel
get_backpressure_level depth = level_of (first_reached depth backpressure_thresholds)

-- `EstimateWaitTime`: the whole part of the depth over 1.5. Depths are far below the numbers at
-- which the float division would round to another whole part.
unfoldable pub estimate_wait_time : ℤ → ℕ
estimate_wait_time (pos depth) = 2 * depth / 3
estimate_wait_time (negsuc depth) = 0
