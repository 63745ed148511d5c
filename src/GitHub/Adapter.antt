-- ===== src/GitHub/Adapter.antt =====
-- github/errors.py and the methods of github/adapter.py that the modelled code calls. An adapter acts
-- on the state of everything outside the worker, `W`; a method returns or raises, with the state that
-- it leaves either way. Nothing reads what `comment` and `update_comment` return, so it is left out.
use issuebot.Prelude.{ℕ, String, Option, List, [], ◌∷◌, ◌++◌, ◌≡◌, ◌⊎◌, Bool, true, false}
use issuebot.Prelude.Text.{◌<>◌}
use issuebot.Config.{GitHubLabels}
use issuebot.GitHub.Models.{StateLabel, Issue, SubIssue, Comment, RepoInfo, ApprovalEvidence}

pub data ErrorCategory : Type 0 where
  auth not_found rate_limited transport status response config : ErrorCategory

-- `page_ceiling` is whether the error is a `PageCeilingError`.
pub record GitHubError : Type 0 where
  pub category : ErrorCategory
  pub message : String
  pub page_ceiling : Bool

-- `category in RETRYABLE_CATEGORIES`
unfoldable pub retryable : GitHubError → Bool
retryable e = elim e.category [
  | ErrorCategory.rate_limited ↦ true
  | ErrorCategory.transport ↦ true
  | _ ↦ false
]

unfoldable pub category_name : ErrorCategory → String
category_name ErrorCategory.auth = "auth"
category_name ErrorCategory.not_found = "not_found"
category_name ErrorCategory.rate_limited = "rate_limited"
category_name ErrorCategory.transport = "transport"
category_name ErrorCategory.status = "status"
category_name ErrorCategory.response = "response"
category_name ErrorCategory.config = "config"

-- `str(exc)`
unfoldable pub error_text : GitHubError → String
unfolding category_name
error_text e = category_name e.category <> ": " <> e.message

unfoldable pub page_ceiling_error : String → GitHubError
page_ceiling_error message = record {
  category = ErrorCategory.response;
  message = message;
  page_ceiling = true;
}

pub data Result (A : Type 0) : Type 0 where
  ok : A → Result A
  err : GitHubError → Result A

abbrev pub Exec : Type 0 → Type 0 → Type 0
Exec W A = W → Result A × W

module _ {W A B : Type 0} where
  abbrev pub continue : Result A → (A → Exec W B) → Exec W B
  continue (ok a) f w = f a w
  continue (err e) f w = (err e, w)

  infixl 5 ◌>>=◌ ◌>>◌
  abbrev pub ◌>>=◌ : Exec W A → (A → Exec W B) → Exec W B
  ◌>>=◌ m f w = let (r, w') = m w in continue r f w'

  abbrev pub ◌>>◌ : Exec W A → Exec W B → Exec W B
  m >> n = m >>= λ _. n

abbrev pub pure : {W A : Type 0} → A → Exec W A
pure a w = (ok a, w)

module _ {W A : Type 0} where
  -- `try: m`, whose `except GitHubError` is an `elim` on what it gives back.
  unfoldable pub attempt : Exec W A → Exec W (Result A)
  attempt m w = let (r, w') = m w in (ok r, w')

  -- `raise e`
  abbrev pub raise : GitHubError → Exec W A
  raise e w = (err e, w)

pub record GitHubAdapter (W : Type 0) : Type 0 where
  pub labels : GitHubLabels
  pub sub_issues : ℕ → Exec W (List SubIssue)
  -- the parent, the title and the body
  pub create_sub_issue : ℕ → String → String → Exec W SubIssue
  -- the labels to add and those to remove
  pub edit_labels : ℕ → List String → List String → Exec W (Unit {0})
  pub close_as_completed : ℕ → Exec W (Unit {0})
  pub comment : ℕ → String → Exec W (Unit {0})
  pub fetch_issues_by_ids : List String → Exec W (List Issue)
  -- the state to set, and whether a claim's markers come off too
  pub set_state : ℕ → StateLabel → Bool → Exec W (Unit {0})
  pub clear_state : ℕ → Exec W (Unit {0})
  pub find_workpad_comment : ℕ → Exec W (Option Comment)
  pub update_comment : ℕ → String → Exec W (Unit {0})
  pub count_own_label_additions : ℕ → String → Exec W ℕ
  pub approval_evidence : ℕ → Exec W ApprovalEvidence
  pub own_login : Exec W String
  pub repo_info : Exec W RepoInfo

-- What filing relies on: the sub-issues of a parent are a list that `sub_issues` reads and that only
-- `create_sub_issue` extends, by one of that title. A creation that raises may have happened.
pub record HasSubIssues {W : Type 0} (a : GitHubAdapter W) (children : ℕ → W → List SubIssue)
    : Type 0 where
  pub reads :
      (parent : ℕ) (w : W) (found : List SubIssue)
      → (a.sub_issues parent w).0 ≡ ok found
      → found ≡ children parent w
  pub read_only : (parent p : ℕ) (w : W) → children p (a.sub_issues parent w).1 ≡ children p w
  pub creates :
      (parent : ℕ) (title text : String) (w : W) (child : SubIssue)
      → (a.create_sub_issue parent title text w).0 ≡ ok child
      → (child.title ≡ title)
        × (children parent (a.create_sub_issue parent title text w).1
            ≡ children parent w ++ child ∷ [])
  pub may_create :
      (parent : ℕ) (title text : String) (w : W) (e : GitHubError)
      → (a.create_sub_issue parent title text w).0 ≡ err e
      → let after = children parent (a.create_sub_issue parent title text w).1 in
        (after ≡ children parent w)
        ⊎ ((child : SubIssue) × (child.title ≡ title) × (after ≡ children parent w ++ child ∷ []))
  pub edits_labels :
      (number p : ℕ) (add remove : List String) (w : W)
      → children p (a.edit_labels number add remove w).1 ≡ children p w
  pub closes : (number p : ℕ) (w : W) → children p (a.close_as_completed number w).1 ≡ children p w
  pub comments :
      (number p : ℕ) (text : String) (w : W) → children p (a.comment number text w).1 ≡ children p w

-- The part of it that filing under one parent needs.
pub record GrowsByCreation {W : Type 0} (a : GitHubAdapter W) (children : ℕ → W → List SubIssue)
    (parent : ℕ) : Type 0 where
  pub creates :
      (title text : String) (w : W) (child : SubIssue)
      → (a.create_sub_issue parent title text w).0 ≡ ok child
      → (child.title ≡ title)
        × (children parent (a.create_sub_issue parent title text w).1
            ≡ children parent w ++ child ∷ [])
  pub may_create :
      (title text : String) (w : W) (e : GitHubError)
      → (a.create_sub_issue parent title text w).0 ≡ err e
      → let after = children parent (a.create_sub_issue parent title text w).1 in
        (after ≡ children parent w)
        ⊎ ((child : SubIssue) × (child.title ≡ title) × (after ≡ children parent w ++ child ∷ []))
  pub edits_labels :
      (number : ℕ) (add remove : List String) (w : W)
      → children parent (a.edit_labels number add remove w).1 ≡ children parent w
  pub closes :
      (number : ℕ) (w : W) → children parent (a.close_as_completed number w).1 ≡ children parent w
  pub comments :
      (number : ℕ) (text : String) (w : W)
      → children parent (a.comment number text w).1 ≡ children parent w

pub HasSubIssues-GrowsByCreation :
    {W : Type 0} (a : GitHubAdapter W) (children : ℕ → W → List SubIssue) (parent : ℕ)
    → HasSubIssues a children
    → GrowsByCreation a children parent
HasSubIssues-GrowsByCreation a children parent laws = record {
  creates = laws.creates parent;
  may_create = laws.may_create parent;
  edits_labels = λ number. laws.edits_labels number parent;
  closes = λ number. laws.closes number parent;
  comments = λ number. laws.comments number parent;
}
