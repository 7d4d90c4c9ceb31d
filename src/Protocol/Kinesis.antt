-- ===== src/Protocol/Kinesis.antt =====
-- The Kinesis requests and responses (protocol.go, lines 1241 to 1319).
use swf4go.Prelude.{Bool, List, Option, String, ℕ}

pub record PutRecordRequest : Type 0 where
  pub data_bytes : String
  pub explicit_hash_key : String
  pub partition_key : String
  pub sequence_number_for_ordering : String
  pub stream_name : String

pub record PutRecordResponse : Type 0 where
  pub sequence_number : String
  pub shard_id : String

pub record GetRecordsRequest : Type 0 where
  pub limit : ℕ
  pub shard_iterator : String

-- GetRecordsResponse, its anonymous struct by the name of its field
pub record Record : Type 0 where
  pub data_bytes : String
  pub partition_key : String
  pub sequence_number : String

pub record GetRecordsResponse : Type 0 where
  pub next_shard_iterator : String
  pub records : List Record

pub record GetShardIteratorRequest : Type 0 where
  pub stream_name : String
  pub shard_id : String
  pub shard_iterator_type : String
  pub starting_sequence_number : String

pub record GetShardIteratorResponse : Type 0 where
  pub shard_iterator : String

pub record CreateStream : Type 0 where
  pub shard_count : ℕ
  pub stream_name : String

pub record DescribeStreamRequest : Type 0 where
  pub exclusive_start_shard_id : Option String
  pub limit : Option ℕ
  pub stream_name : String

-- DescribeStreamResponse, its anonymous structs by the names of their fields
pub record HashKeyRange : Type 0 where
  pub ending_hash_key : String
  pub starting_hash_key : String

pub record SequenceNumberRange : Type 0 where
  pub ending_sequence_number : String
  pub starting_sequence_number : String

pub record Shard : Type 0 where
  pub adjacent_parent_shard_id : String
  pub hash_key_range : HashKeyRange
  pub parent_shard_id : String
  pub sequence_number_range : SequenceNumberRange
  pub shard_id : String

pub record StreamDescription : Type 0 where
  pub has_more_shards : Bool
  pub shards : List Shard
  pub stream_arn : String
  pub stream_name : String
  pub stream_status : String

pub record DescribeStreamResponse : Type 0 where
  pub stream_description : StreamDescription
