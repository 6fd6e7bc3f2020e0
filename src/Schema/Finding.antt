-- ===== src/Schema/Finding.antt =====
-- src/deepthought/schema/finding.py
use deep_thought.Prelude.{String, Bool, Option, List, any, ◌==◌}
use deep_thought.Prelude.Text.{lower}
use deep_thought.Schema.Status.{FindingStatus}
use deep_thought.Schema.Json.{Float, Json}

pub record Severity : Type 0 where
  pub cvss_vector : String
  pub cvss_score : Float

pub record AffectedPackage : Type 0 where
  pub ecosystem : String
  pub package_name : String  -- `package`
  pub ranges : List Json
  pub versions : List String

pub record Reference : Type 0 where
  pub type : String
  pub url : String

pub record TimelineEntry : Type 0 where
  pub date : String
  pub event : String

pub record Disclosure : Type 0 where
  pub reported : Option String
  pub vendor_contact : Option String
  pub embargo_until : Option String
  pub timeline : List TimelineEntry

pub record TransitionLogEntry : Type 0 where
  pub at : String
  pub from_status : String
  pub to_status : String
  pub accepted : Bool
  pub reason : Option String

pub record Finding : Type 0 where
  pub id : String
  pub project : String
  pub summary : String
  pub status : FindingStatus
  pub severity : Option Severity
  pub affected : List AffectedPackage
  pub references : List Reference
  pub aliases : List String
  pub cve : Option String
  pub disclosure : Option Disclosure
  pub evidence_ref : Option String
  pub downstream_impact : Option String
  pub published : Option String
  pub modified : Option String
  pub transition_log : List TransitionLogEntry
  pub body : String

unfoldable pub has_reference_type : Finding → String → Bool
has_reference_type f ref_type = any (λ r. lower r.type == lower ref_type) f.references
