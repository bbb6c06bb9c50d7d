-- ===== src/Dashboard/Points.antt =====
-- The dashboard's chart of traffic: `_performance_series` (surveys/dashboard.py) over the attempts that
-- the viewer sees. CPIs are whole hundredths. The ratios of the counts are left out.
use quant_tool.Base.{
  ℕ, ◌+◌, Bool, true, false, not, ◌&&◌, Option, List, [], ◌∷◌, map, ltb, leb, or_default,
  if◌then◌else◌,
}
use quant_tool.Vendors.Models.{AttemptStatus, completed, terminated}
use quant_tool.SupplierCallbacks.{same_status}
use quant_tool.Dashboard.{Bucket}

-- `is_local` is for the status source "local_prescreener", `is_rejected` for a final ID status that
-- says so.
pub record Hit : Type 0 where
  pub initiated_at : ℕ
  pub status : AttemptStatus
  pub is_local : Bool
  pub is_rejected : Bool
  pub source_cpi_snapshot : Option ℕ

pub record Point : Type 0 where
  pub hits : ℕ
  pub completes : ℕ
  pub rejected : ℕ
  pub terminated : ℕ
  pub revenue : ℕ

-- `window`
abbrev pub in_window : Bucket → Hit → Bool
in_window b a = leb b.lower a.initiated_at && ltb a.initiated_at b.upper

abbrev pub is_completed : Hit → Bool
is_completed a = same_status a.status completed

abbrev pub survey_terminated : Hit → Bool
survey_terminated a = same_status a.status terminated && not a.is_local

-- What one attempt adds to the point of a bucket.
abbrev pub one : Bool → ℕ
one true = 1
one false = 0

abbrev pub add_hit : Bucket → Hit → Point → Point
add_hit b a p = record {
  hits = one (in_window b a) + p.hits;
  completes = one (in_window b a && is_completed a) + p.completes;
  rejected = one (in_window b a && a.is_rejected) + p.rejected;
  terminated = one (in_window b a && survey_terminated a) + p.terminated;
  revenue =
      (if in_window b a && is_completed a then or_default a.source_cpi_snapshot 0 else 0)
      + p.revenue;
}

abbrev pub no_traffic : Point
no_traffic = record { hits = 0; completes = 0; rejected = 0; terminated = 0; revenue = 0 }

-- The aggregates of one bucket
unfoldable pub point_of : List Hit → Bucket → Point
point_of [] b = no_traffic
point_of (a ∷ rest) b = add_hit b a (point_of rest b)

-- `_performance_series`
unfoldable pub performance_series : List Hit → List Bucket → List Point
performance_series queryset buckets = map (point_of queryset) buckets
