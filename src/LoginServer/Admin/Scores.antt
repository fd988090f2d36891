-- ===== src/LoginServer/Admin/Scores.antt =====
-- The score queries of crates/login_server/src/admin/handlers.rs. The two statements are parameters
-- with their arguments, and a date is an opaque number.
use rust_gameserver.Base.{ℕ, List, map, Option}
use rust_gameserver.Proto.{ℤ}
use rust_gameserver.Redis.{Reply, done, failed}
use rust_gameserver.LoginServer.Admin.Handlers.{scores_by_account_limit, scores_top_limit}

-- `(score_id, account_id, score, kill_count, survive_seconds, played_at)`
abbrev pub ScoreRow : Type 0
ScoreRow = ℕ × ℕ × ℕ × ℕ × ℕ × ℕ

pub record ScoreDto : Type 0 where
  pub score_id : ℕ
  pub account_id : ℕ
  pub score : ℕ
  pub kill_count : ℕ
  pub survive_seconds : ℕ
  pub played_at : ℕ

abbrev pub from_row : ScoreRow → ScoreDto
from_row (score_id, account_id, score, kill_count, survive_seconds, played_at) = record {
  score_id = score_id;
  account_id = account_id;
  score = score;
  kill_count = kill_count;
  survive_seconds = survive_seconds;
  played_at = played_at;
}

pub record ScoreSql (D : Type 0) : Type 0 where
  pub select_scores : D → (account_id limit : ℕ) → D × Reply (List ScoreRow)
  pub select_top : D → (limit : ℕ) → D × Reply (List ScoreRow)

-- `?` on the rows, and the conversion of each.
abbrev pub collect : Reply (List ScoreRow) → Reply (List ScoreDto)
collect (done rows) = done (map from_row rows)
collect failed = failed

module _ {D : Type 0} (sql : ScoreSql D) where
  unfoldable pub scores_by_account : D → ℕ → Option ℤ → D × Reply (List ScoreDto)
  scores_by_account d account_id limit =
      let (d', reply) = sql.select_scores d account_id (scores_by_account_limit limit) in
      (d', collect reply)

  unfoldable pub scores_top : D → Option ℤ → D × Reply (List ScoreDto)
  scores_top d limit =
      let (d', reply) = sql.select_top d (scores_top_limit limit) in (d', collect reply)
