-- ===== src/Lib.antt =====
-- The Hypertrace collector (cmd/collector), an OpenTelemetry collector with its own processors and
-- with its own versions of the Kafka exporter, the Prometheus exporter and the Jaeger receiver.
--
-- A pipeline hands batches of traces or metrics from a receiver through processors to exporters. Each
-- component is a module, and a component's operations are functions that return the new value of what
-- the code changes in place, the error, and what the call records, logs or hands on.
--
-- Prelude has Go strings as byte lists, Go maps as association lists, sort.Strings, strconv.Itoa,
-- strconv.ParseInt (Prelude/Int) and net.SplitHostPort (Prelude/HostPort).
--
-- Pdata is the data model of pdata: the trees of metrics and traces, attribute maps as the interface
-- AttributeMap, opencensus tag maps as the interface TagMap.
--
-- TenantId models processors/tenantidprocessor: ProcessMetrics and ProcessTraces are process_metrics
-- and process_traces in TenantId/Process, Config and MetricViews are in TenantId/Config.
--
-- RateLimiter models processors/ratelimiter: ConsumeTraces is consume_traces in RateLimiter/Consume,
-- the factory and Shutdown are in RateLimiter/Lifecycle.
--
-- SpanCounter models processors/spancounter: newProcessor and the labelling of criteria are in
-- SpanCounter/Config, ProcessTraces and spanMatchesConfig in SpanCounter/Process.
--
-- MetricRemover models processors/metricremover, and ResourceAttrs models
-- processors/metricresourceattrstoattrs: ProcessMetrics is process_metrics in both.
--
-- Kafka models exporter/kafkaexporter: jaegerMarshaler and jaegerMarshalerCurer are in Kafka/Curer,
-- cureSpan and cureSpanLogs in Kafka/Cure, byteSize in Kafka/Message, spanAsString in Kafka/Describe;
-- the settings and Validate in Kafka/Config, the pushers, getTopic and newSaramaProducer in
-- Kafka/Exporter, the calls of an exporter one after the other in Kafka/Exporter/Lifecycle, the
-- constructors and defaults in Kafka/Factory, the raw and pdata marshalers in Kafka/Marshalers, the
-- maps of marshaler.go and NewFactory with its options in Kafka/Tables.
--
-- Prometheus models exporter/prometheusexporter: Accumulate and Collect of the accumulator are
-- accumulate and collect in Prometheus/Accumulator, with the values they hold in
-- Prometheus/LastValues; accumulateHistogramValues is in Prometheus/Histogram, timeseriesSignature in
-- Prometheus/Signature, the labels of utils.go in Prometheus/Labels. Of the collector, newCollector,
-- convertExemplars and getMetricMetadata are in Prometheus/Convert, convertMetric with its four cases
-- in Prometheus/Convert/ByType, the buckets of convertDoubleHistogram in Prometheus/Buckets,
-- createTargetInfoMetrics and Collect in Prometheus/TargetInfo. prometheus.go is in
-- Prometheus/Exporter, where run_calls is a sequence of calls of ConsumeMetrics and Collect.
--
-- JaegerReceiver models receiver/jaegerreceiver: Validate, Unmarshal and checkPortFromEndpoint are in
-- JaegerReceiver/Config; decodeThriftHTTPBody and toMetadata in JaegerReceiver/Request;
-- HandleThriftHTTPBatch, EmitBatch and PostSpans in JaegerReceiver/Handlers; createTracesReceiver and
-- newJaegerReceiver in JaegerReceiver/Receiver; Start with startAgent and startCollector in
-- JaegerReceiver/Start; Shutdown, and the ends of the goroutines as a step relation, in
-- JaegerReceiver/Shutdown.
--
-- Command models cmd/collector: components, defaultComponents, registerMetricViews and main.
--
-- Pipeline is the tenant id processor followed by the rate limiter, and Pipeline/Intake the HTTP
-- handler of the Jaeger receiver followed by the tenant id processor.
--
-- Tests has concrete instances of the interfaces, the theorems at concrete inputs, and runs.
--
-- Libraries that are not in the repository are parameters: pcommon.Map and pcommon.Value
-- (AttributeMap), opencensus tags (TagMap), the counts SpanCount and MetricCount, RemoveIf of a
-- metric slice (MetricSlice), the rate limit service, grpc.DialContext, the Jaeger translator, the
-- encodings of a Jaeger span, the encoders of pdata and encoding/json, sarama (Sarama), gRPC's metadata
-- (Metadata), the observability report (ObsReport), the Thrift deserializer and
-- mime.ParseMediaType, the servers and listeners of the Jaeger receiver (Libraries), client_golang
-- (Client) and prometheustranslator (Translator), the factories of other repositories (Others) and
-- MakeFactoryMap. Their laws are fields of the interface records and state documented behaviour, as
-- do those of TypeNames on the names of metric types. The trees of pdata and the Jaeger span are
-- records with the fields that the code reads.
--
-- Numbers: Go's int is unbounded where it counts things in memory; uint32 and uint64 wrap, an int64
-- is its 64-bit pattern, and float64 is an abstract type. Sizes that a configuration gives as int are
-- taken to be not negative. Loops are structural recursion; the five rounds of the cures recur on the
-- rounds that are left, and Itoa has as much fuel as its argument, which is more than its digits
-- (Prelude.Decimal.read-itoa).
--
-- Calls are taken one after the other: the accumulator's sync.Map is a map. The rounds of two calls
-- of Accumulate that run at once, one access of the map at a time in any order, are in
-- Prometheus/Accumulator/Interleaved; a sync.Map makes each Load, Store and Delete one step. Where
-- the code would panic in the accumulator or the collector, the result is none. The goroutines of
-- the Jaeger receiver are a list; they end one at a time, in any order.
--
-- Not modelled: the wrapping of components by exporterhelper and processorhelper beyond the order of
-- their calls, feature gates, what the HTTP and gRPC servers do besides calling their handlers,
-- generated metadata besides the types, and texts that are only logged, unless a theorem speaks of
-- them.
pub mod Prelude
pub mod Pdata
pub mod TenantId
pub mod RateLimiter
pub mod SpanCounter
pub mod MetricRemover
pub mod ResourceAttrs
pub mod Kafka
pub mod Prometheus
pub mod JaegerReceiver
pub mod Pipeline
pub mod Command
pub mod Tests
